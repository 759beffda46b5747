-- ===== src/Kernel/Codec.antt =====
-- include/zen/kernel/schema_codec.hpp: a schema is encoded as a value of a fixed schema, and rebuilt
-- from it. A nested schema is a reference that a registry resolves.
use zen.Prelude.{Bool, List, Option, [], codes, false, if◌then◌else◌, none, some, true, ℕ, ◌%◌}
use zen.Prelude.{◌++◌, ◌-◌, ◌==◌, ◌^◌, ◌∷◌}
use zen.Prelude.Int.{negsuc, pos, ℤ}
use zen.Binary.{Bytes}
use zen.Failure.{Exception, Throws, ok, runtime_error, throw, ◌>>=◌}
use zen.Schema.{Fields, Kind, Schema, TypeRef, compute_content_id, field, kind_code, kind_of}
use zen.Schema.{no_fields, schema, schema_fields, schema_name, schema_version}
use zen.Schema.Build.{RawField, RawType, make_schema, type_list, type_message, type_of}
use zen.Value.{Cell, Cells, Value, as_bool, as_int, as_list, as_message, as_text, boolean, cell}
use zen.Value.{get_field, integer, make_value, no_cells, set_field}
use zen.Registry.{Registry, lookup_schema}

-- What `SchemaBuilder` builds for fields that it accepts.
abbrev described : Bytes → ℕ → Fields → Schema
described name version fs = schema name version fs (compute_content_id name version fs)

abbrev pub type_token_schema : Schema
type_token_schema = described (codes "zen.TypeToken") 1 (
    field (codes "kind") TypeRef.int true (
      field (codes "ref_name") TypeRef.text false
        (field (codes "ref_version") TypeRef.int false no_fields)))

abbrev pub field_desc_schema : Schema
field_desc_schema = described (codes "zen.Field") 1 (
    field (codes "name") TypeRef.text true (
      field (codes "required") TypeRef.bool true
        (field (codes "type") (TypeRef.list (TypeRef.message type_token_schema)) true no_fields)))

abbrev pub schema_desc_schema : Schema
schema_desc_schema = described (codes "zen.SchemaDesc") 1 (
    field (codes "name") TypeRef.text true (
      field (codes "version") TypeRef.int true
        (field (codes "fields") (TypeRef.list (TypeRef.message field_desc_schema)) true no_fields)))

abbrev pub manifest_schema : Schema
manifest_schema = described (codes "zen.Manifest") 1 (
    field (codes "accepted") (TypeRef.list (TypeRef.message schema_desc_schema)) true
      (field (codes "state") (TypeRef.message schema_desc_schema) true no_fields))

-- `tokens.push_back`.
unfoldable pub push_cell : Cells → Cell → Cells
push_cell no_cells c = cell c no_cells
push_cell (cell d cs) c = cell d (push_cell cs c)

-- The reference of a token, if it has one.
unfoldable pub set_reference : Value → Option Schema → Throws Value
unfolding set_field
set_reference tok none = ok tok
set_reference tok (some s) = do
  tok' ← set_field tok (codes "ref_name") (Cell.text (schema_name s))
  set_field tok' (codes "ref_version") (integer (pos (schema_version s)))

unfoldable pub make_type_token : Kind → Option Schema → Throws Value
unfolding make_value set_field set_reference kind_code
make_type_token k ref = do
  tok ← set_field (make_value type_token_schema) (codes "kind") (integer (pos (kind_code k)))
  set_reference tok ref

unfoldable pub encode_type : TypeRef → Cells → Throws Cells
unfolding make_type_token push_cell kind_of
encode_type (TypeRef.message s) tokens = do
  tok ← make_type_token Kind.message (some s)
  ok (push_cell tokens (Cell.message tok))
encode_type (TypeRef.list t) tokens = do
  tok ← make_type_token Kind.list none
  encode_type t (push_cell tokens (Cell.message tok))
encode_type t tokens = do
  tok ← make_type_token (kind_of t) none
  ok (push_cell tokens (Cell.message tok))

-- The descriptor of one field.
unfoldable pub describe_field : Bytes → TypeRef → Bool → Throws Value
unfolding make_value set_field encode_type
describe_field n t r = do
  fd ← set_field (make_value field_desc_schema) (codes "name") (Cell.text n)
  fd' ← set_field fd (codes "required") (boolean r)
  tokens ← encode_type t no_cells
  set_field fd' (codes "type") (Cell.list tokens)

-- The loop of `encode_schema`.
unfoldable pub describe_fields : Fields → Cells → Throws Cells
unfolding describe_field push_cell
describe_fields no_fields fields = ok fields
describe_fields (field n t r fs) fields = do
  fd ← describe_field n t r
  describe_fields fs (push_cell fields (Cell.message fd))

unfoldable pub encode_schema : Schema → Throws Value
unfolding make_value set_field describe_fields
encode_schema s = do
  desc ← set_field (make_value schema_desc_schema) (codes "name") (Cell.text (schema_name s))
  desc' ← set_field desc (codes "version") (integer (pos (schema_version s)))
  fields ← describe_fields (schema_fields s) no_cells
  set_field desc' (codes "fields") (Cell.list fields)

unfoldable pub encode_accepted : List Schema → Cells → Throws Cells
unfolding encode_schema push_cell
encode_accepted [] acc = ok acc
encode_accepted (s ∷ accepted) acc = do
  desc ← encode_schema s
  encode_accepted accepted (push_cell acc (Cell.message desc))

unfoldable pub encode_manifest : List Schema → Schema → Throws Value
unfolding encode_accepted encode_schema make_value set_field
encode_manifest accepted state = do
  acc ← encode_accepted accepted no_cells
  m ← set_field (make_value manifest_schema) (codes "accepted") (Cell.list acc)
  desc ← encode_schema state
  set_field m (codes "state") (Cell.message desc)

-- `static_cast<std::uint32_t>` of a 64-bit integer.
unfoldable pub to_u32 : ℤ → ℕ
to_u32 (pos n) = n % 2 ^ 32
to_u32 (negsuc n) = 2 ^ 32 - 1 - n % 2 ^ 32

-- The kind of a number from 0 to 6.
abbrev pub kind_from : ℤ → Option Kind
kind_from (negsuc n) = none
kind_from (pos n) =
    if n == 0
    then some Kind.int
    else if n == 1
    then some Kind.float
    else if n == 2
    then some Kind.text
    else if n == 3
    then some Kind.bool
    else if n == 4
    then some Kind.bytes
    else if n == 5
    then some Kind.message
    else if n == 6
    then some Kind.list
    else none

-- `deps.lookup` and `type_message`.
unfoldable pub resolve : Registry → Bytes → ℕ → Throws RawType
unfolding lookup_schema type_message
resolve deps name version = elim (lookup_schema deps name version) [
  | none ↦
      throw (
        runtime_error
          (codes "schema descriptor: unresolved nested schema '" ++ (name ++ codes "'")))
  | some s ↦ type_message (some s)
]

abbrev missing_reference : Exception
missing_reference = runtime_error (codes "schema descriptor: Message token missing its reference")

abbrev pub decode_reference : Option Cell → Option Cell → Registry → Throws RawType
decode_reference (some name) (some version) deps = as_text (some name) >>= λ ref_name.
    as_int (some version) >>= λ v. resolve deps ref_name (to_u32 v)
decode_reference _ _ deps = throw missing_reference

-- What a token of a kind stands for, given the tokens behind it and what they decode to.
unfoldable pub decode_kind :
    Option Kind → Value → Cells → Registry → Throws (RawType × Cells) → Throws (RawType × Cells)
unfolding get_field as_text as_int to_u32 resolve type_list type_of
decode_kind none tok rest deps nested =
    throw (runtime_error (codes "schema descriptor: kind out of range"))
decode_kind (some Kind.message) tok rest deps nested =
    decode_reference (get_field tok (codes "ref_name")) (get_field tok (codes "ref_version")) deps
    >>= λ t. ok (t, rest)
decode_kind (some Kind.list) tok rest deps nested = nested >>= λ (t, left). ok (type_list t, left)
decode_kind (some k) tok rest deps nested = type_of k >>= λ t. ok (t, rest)

-- The index into the tokens is what is left of them.
unfoldable pub decode_type : Cells → Registry → Throws (RawType × Cells)
unfolding decode_kind as_message as_int get_field
decode_type no_cells deps =
    throw (runtime_error (codes "schema descriptor: truncated type-token stream"))
decode_type (cell c rest) deps = as_message c >>= λ tok.
    as_int (get_field tok (codes "kind")) >>= λ kind.
    decode_kind (kind_from kind) tok rest deps (decode_type rest deps)

abbrev pub nothing_left : RawType × Cells → Throws RawType
nothing_left (t, no_cells) = ok t
nothing_left (t, cell c cs) =
    throw (runtime_error (codes "schema descriptor: trailing type tokens"))

-- One field of the loop of `decode_schema`.
unfoldable pub rebuild_field : Cell → Registry → Throws RawField
unfolding as_message as_text as_bool as_list get_field decode_type
rebuild_field c deps = as_message c >>= λ fd. as_text (get_field fd (codes "name")) >>= λ name.
    as_bool (get_field fd (codes "required")) >>= λ required.
    as_list (get_field fd (codes "type")) >>= λ tokens. decode_type tokens deps >>= λ decoded.
    nothing_left decoded >>= λ t. ok (record { name = name; type = t; required = required })

unfoldable pub rebuild_fields : Cells → Registry → Throws (List RawField)
unfolding rebuild_field
rebuild_fields no_cells deps = ok []
rebuild_fields (cell c cs) deps =
    rebuild_field c deps >>= λ f. rebuild_fields cs deps >>= λ fs. ok (f ∷ fs)

unfoldable pub decode_schema : Value → Registry → Throws Schema
unfolding as_text as_int as_list get_field rebuild_fields make_schema to_u32
decode_schema desc deps = as_text (get_field desc (codes "name")) >>= λ name.
    as_int (get_field desc (codes "version")) >>= λ version.
    as_list (get_field desc (codes "fields")) >>= λ fields.
    rebuild_fields fields deps >>= λ rebuilt. make_schema name (to_u32 version) rebuilt
