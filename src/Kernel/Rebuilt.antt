-- ===== src/Kernel/Rebuilt.antt =====
-- include/zen/kernel/schema_codec.hpp: a schema is rebuilt from its description.
use zen.Prelude.{Bool, ap, arith, bytes_eq, codes, none, refl, some, sym, ℕ, ◌<◌, ◌^◌, ◌∙◌, ◌≡◌}
use zen.Prelude.Int.{pos}
use zen.Binary.{Bytes}
use zen.Failure.{ok}
use zen.Schema.{Fields, Kind, Schema, TypeRef, compute_content_id, field, kind_code, kind_of}
use zen.Schema.{no_fields, schema, schema_fields, schema_name, schema_version}
use zen.Schema.Build.{make_schema, no_element, raw, type_list, type_message, type_of}
use zen.Schema.Distinct.{IsDistinct, erase_fields, erase_type, make_schema_iff}
use zen.Value.{Cell, Cells, Slots, Value, absent, as_bool, as_int, as_list, as_message, as_text}
use zen.Value.{boolean, cell, empty_slots, get_field, get_slot, integer, make_value, no_cells}
use zen.Value.{no_slots, present, set_field, set_found, set_slot, value}
use zen.Registry.{Registry, lookup_schema}
use zen.Kernel.Codec.{decode_kind, decode_schema, decode_type, describe_field, describe_fields}
use zen.Kernel.Codec.{encode_schema, encode_type, field_desc_schema, make_type_token, push_cell}
use zen.Kernel.Codec.{rebuild_field, rebuild_fields, resolve, schema_desc_schema, set_reference}
use zen.Kernel.Codec.{to_u32, type_token_schema}

abbrev join_cells : Cells → Cells → Cells
join_cells no_cells more = more
join_cells (cell c cs) more = cell c (join_cells cs more)

join_cells-nil : (cs : Cells) → join_cells cs no_cells ≡ cs
join_cells-nil no_cells = refl
join_cells-nil (cell c cs) = ap (cell c) (join_cells-nil cs)

join_cells-push_cell :
    (cs : Cells) (c : Cell) (more : Cells)
    → join_cells (push_cell cs c) more ≡ join_cells cs (cell c more)
unfolding push_cell
join_cells-push_cell no_cells c more = refl
join_cells-push_cell (cell d cs) c more = ap (cell d) (join_cells-push_cell cs c more)

-- The tokens of a type and the descriptors of fields, as they come out.
abbrev token_value : Slots → Value
token_value = value type_token_schema

type_tokens : TypeRef → Cells
unfolding kind_code kind_of
type_tokens (TypeRef.message s) =
    cell
      (Cell.message (
        value type_token_schema (
          present (integer (pos (kind_code Kind.message))) (
            present (Cell.text (schema_name s))
              (present (integer (pos (schema_version s))) no_slots)))))
      no_cells
type_tokens (TypeRef.list t) =
    cell
      (Cell.message (
        value type_token_schema
          (present (integer (pos (kind_code Kind.list))) (absent (absent no_slots)))))
      (type_tokens t)
type_tokens t =
    cell
      (Cell.message (
        value type_token_schema
          (present (integer (pos (kind_code (kind_of t)))) (absent (absent no_slots)))))
      no_cells

field_value : Bytes → TypeRef → Bool → Value
field_value n t r =
    value field_desc_schema
      (present (Cell.text n) (present (boolean r) (present (Cell.list (type_tokens t)) no_slots)))

field_values : Fields → Cells
unfolding field_value
field_values no_fields = no_cells
field_values (field n t r fs) = cell (Cell.message (field_value n t r)) (field_values fs)

schema_value : Schema → Value
unfolding field_values
schema_value s = value schema_desc_schema (
    present (Cell.text (schema_name s)) (
      present (integer (pos (schema_version s)))
        (present (Cell.list (field_values (schema_fields s))) no_slots)))

token_plain :
    (k : Kind)
    → make_type_token k none
      ≡ ok (token_value (present (integer (pos (kind_code k))) (absent (absent no_slots))))
unfolding make_type_token set_reference set_field set_slot set_found bytes_eq make_value empty_slots
token_plain k = refl

token_referring :
    (k : Kind) (s : Schema)
    → make_type_token k (some s)
      ≡ ok (
          token_value (
            present (integer (pos (kind_code k))) (
              present
                (Cell.text (schema_name s))
                (present (integer (pos (schema_version s))) no_slots))))
unfolding make_type_token set_reference set_field set_slot set_found bytes_eq make_value empty_slots
token_referring k s = refl

pushed_last : (tokens : Cells) (c : Cell) → push_cell tokens c ≡ join_cells tokens (cell c no_cells)
pushed_last tokens c =
    sym (join_cells-nil (push_cell tokens c)) ∙ join_cells-push_cell tokens c no_cells

encode_type-type_tokens :
    (t : TypeRef) (tokens : Cells) → encode_type t tokens ≡ ok (join_cells tokens (type_tokens t))
unfolding encode_type type_tokens
encode_type-type_tokens (TypeRef.message s) tokens =
    rw (token_referring Kind.message s) (ap ok (pushed_last tokens _))
encode_type-type_tokens (TypeRef.list t) tokens = rw (token_plain Kind.list) (
    encode_type-type_tokens t (push_cell tokens _)
    ∙ ap ok (join_cells-push_cell tokens _ (type_tokens t)))
encode_type-type_tokens TypeRef.int tokens =
    rw (token_plain Kind.int) (ap ok (pushed_last tokens _))
encode_type-type_tokens TypeRef.float tokens =
    rw (token_plain Kind.float) (ap ok (pushed_last tokens _))
encode_type-type_tokens TypeRef.text tokens =
    rw (token_plain Kind.text) (ap ok (pushed_last tokens _))
encode_type-type_tokens TypeRef.bool tokens =
    rw (token_plain Kind.bool) (ap ok (pushed_last tokens _))
encode_type-type_tokens TypeRef.bytes tokens =
    rw (token_plain Kind.bytes) (ap ok (pushed_last tokens _))

-- The three fields of a descriptor, set in order.
ThreeSet : (s : Schema) (n1 n2 n3 : Bytes) (c1 c2 c3 : Cell) → Type 0
ThreeSet s n1 n2 n3 c1 c2 c3 =
    (v1 : Value) × (v2 : Value) × (set_field (make_value s) n1 c1 ≡ ok v1)
    × (set_field v1 n2 c2 ≡ ok v2)
    × (set_field v2 n3 c3 ≡ ok (value s (present c1 (present c2 (present c3 no_slots)))))

field_set :
    (c1 c2 c3 : Cell)
    → ThreeSet field_desc_schema (codes "name") (codes "required") (codes "type") c1 c2 c3
unfolding ThreeSet set_field set_slot set_found bytes_eq make_value empty_slots
field_set c1 c2 c3 = (_, _, refl, refl, refl)

schema_set :
    (c1 c2 c3 : Cell)
    → ThreeSet schema_desc_schema (codes "name") (codes "version") (codes "fields") c1 c2 c3
unfolding ThreeSet set_field set_slot set_found bytes_eq make_value empty_slots
schema_set c1 c2 c3 = (_, _, refl, refl, refl)

describe_field-field_value :
    (n : Bytes) (t : TypeRef) (r : Bool) → describe_field n t r ≡ ok (field_value n t r)
unfolding describe_field field_value ThreeSet
describe_field-field_value n t r =
    let (v1, v2, e1, e2, e3) = field_set (Cell.text n) (boolean r) (Cell.list (type_tokens t)) in
    rw (e1, e2, encode_type-type_tokens t no_cells) e3

describe_fields-field_values :
    (fs : Fields) (fields : Cells)
    → describe_fields fs fields ≡ ok (join_cells fields (field_values fs))
unfolding describe_fields field_values
describe_fields-field_values no_fields fields = ap ok (sym (join_cells-nil fields))
describe_fields-field_values (field n t r fs) fields = rw (describe_field-field_value n t r) (
    describe_fields-field_values fs (push_cell fields _)
    ∙ ap ok (join_cells-push_cell fields _ (field_values fs)))

encode_schema-schema_value : (s : Schema) → encode_schema s ≡ ok (schema_value s)
unfolding encode_schema schema_value ThreeSet
encode_schema-schema_value s =
    let (v1, v2, e1, e2, e3) =
      schema_set (Cell.text (schema_name s)) (integer (pos (schema_version s)))
        (Cell.list (field_values (schema_fields s))) in
    rw (e1, e2, describe_fields-field_values (schema_fields s) no_cells) e3

-- The schemas that a type or the fields of a schema refer to are the registry's, with versions of
-- 32 bits.
abbrev pub IsResolved : Registry → TypeRef → Type 0
IsResolved deps (TypeRef.message s) =
    (lookup_schema deps (schema_name s) (schema_version s) ≡ some s) × (schema_version s < 2 ^ 32)
IsResolved deps (TypeRef.list t) = IsResolved deps t
IsResolved deps t = Unit

abbrev pub AreResolved : Registry → Fields → Type 0
AreResolved deps no_fields = Unit
AreResolved deps (field n t r fs) = IsResolved deps t × AreResolved deps fs

u32_fits : (n : ℕ) → n < 2 ^ 32 → to_u32 (pos n) ≡ n
unfolding to_u32
u32_fits n h = omega arith

resolved :
    (deps : Registry) (name : Bytes) (version : ℕ) (s : Schema)
    → lookup_schema deps name version ≡ some s
    → resolve deps name version ≡ ok (raw Kind.message (some s) no_element)
unfolding resolve type_message
resolved deps name version s h = rw (resolve, h) refl

decode_type-type_tokens :
    (t : TypeRef) (deps : Registry)
    → IsResolved deps t
    → decode_type (type_tokens t) deps ≡ ok (erase_type t, no_cells)
unfolding decode_type decode_kind type_tokens as_message as_int as_text get_field get_slot bytes_eq
    kind_code kind_of type_of type_list erase_type
decode_type-type_tokens (TypeRef.message s) deps (found, fits) =
    rw (u32_fits (schema_version s) fits, resolved deps (schema_name s) (schema_version s) s found)
      refl
decode_type-type_tokens (TypeRef.list t) deps h = rw (decode_type-type_tokens t deps h) refl
decode_type-type_tokens TypeRef.int deps h = refl
decode_type-type_tokens TypeRef.float deps h = refl
decode_type-type_tokens TypeRef.text deps h = refl
decode_type-type_tokens TypeRef.bool deps h = refl
decode_type-type_tokens TypeRef.bytes deps h = refl

rebuild_field-field_value :
    (n : Bytes) (t : TypeRef) (r : Bool) (deps : Registry)
    → IsResolved deps t
    → rebuild_field (Cell.message (field_value n t r)) deps
      ≡ ok (record { name = n; type = erase_type t; required = r })
unfolding rebuild_field field_value as_message as_text as_bool as_list get_field get_slot bytes_eq
rebuild_field-field_value n t r deps h = rw (decode_type-type_tokens t deps h) refl

rebuild_fields-field_values :
    (fs : Fields) (deps : Registry)
    → AreResolved deps fs
    → rebuild_fields (field_values fs) deps ≡ ok (erase_fields fs)
unfolding rebuild_fields field_values erase_fields
rebuild_fields-field_values no_fields deps h = refl
rebuild_fields-field_values (field n t r fs) deps (h, hs) =
    rw (rebuild_field-field_value n t r deps h, rebuild_fields-field_values fs deps hs) refl

decode_schema-schema_value :
    (s : Schema) (deps : Registry)
    → schema_version s < 2 ^ 32
    → AreResolved deps (schema_fields s)
    → decode_schema (schema_value s) deps
      ≡ make_schema (schema_name s) (schema_version s) (erase_fields (schema_fields s))
unfolding decode_schema schema_value as_text as_int as_list get_field get_slot bytes_eq
decode_schema-schema_value s deps fits h =
    rw (rebuild_fields-field_values (schema_fields s) deps h, u32_fits (schema_version s) fits) refl

-- A schema as the constructor makes it, of a 32-bit version, crosses the boundary whole: its
-- description can be made, and where the registry holds the schemas it refers to, the schema that
-- is rebuilt from the description is the same one, content id included.
pub decode_schema-encode_schema :
    (name : Bytes) (version : ℕ) (fs : Fields) (deps : Registry)
    → IsDistinct fs
    → version < 2 ^ 32
    → AreResolved deps fs
    → (desc : Value) × (encode_schema (schema name version fs (compute_content_id name version fs))
        ≡ ok desc)
      × (decode_schema desc deps ≡ ok (schema name version fs (compute_content_id name version fs)))
decode_schema-encode_schema name version fs deps distinct fits h =
    let s = schema name version fs (compute_content_id name version fs) in
    (
      schema_value s,
      encode_schema-schema_value s,
      decode_schema-schema_value s deps fits h
          ∙ (make_schema_iff name version (erase_fields fs) s).1 (fs, refl, refl, distinct),
    )
