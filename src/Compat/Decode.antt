-- ===== src/Compat/Decode.antt =====
-- src/serialize.cpp: the JSON decoder, which goes on behind a bad field. Its list of errors is passed
-- along; a cell that is not decoded is `none`.
use zen.Prelude.{Bool, List, Option, [], bytes_eq, codes, false, if◌then◌else◌, length, none, not}
use zen.Prelude.{some, ℕ, ◌++◌, ◌+◌, ◌==◌, ◌^◌, ◌∷◌}
use zen.Binary.{Bytes, canonical_nan_bits}
use zen.Failure.{Throws, ok, ◌>>=◌}
use zen.Schema.{FieldView, Fields, Schema, TypeRef, field, find_field, no_fields, schema}
use zen.Schema.{type_label}
use zen.Value.{Cell, Cells, Value, boolean, cell, integer, make_value, no_cells, real, set_field}
use zen.Gate.{Error, ErrorKind, field_path, index_path, malformed_field, type_mismatch}
use zen.Gate.{unknown_field}
use zen.Utf8.{valid_utf8}
use zen.Base64.{base64_decode}
use zen.Json.{JsonItems, JsonMembers, JsonValue, array_node, bool_node, find_member, item, member}
use zen.Json.{no_items, no_members, null_node, number_node, object_node, string_node}
use zen.Compat.Numbers.{json_parse_int64}

-- The decoder's result with the errors so far.
abbrev pub Noted : Type 0 → Type 0
Noted A = Throws (A × List Error)

unfoldable pub json_type_name : JsonValue → Bytes
json_type_name null_node = codes "json:null"
json_type_name (bool_node b) = codes "json:bool"
json_type_name (number_node s) = codes "json:number"
json_type_name (string_node s) = codes "json:string"
json_type_name (array_node items) = codes "json:array"
json_type_name (object_node ms) = codes "json:object"

unfoldable pub stop_decoding : Bool → List Error → Bool
stop_decoding collect_all [] = false
stop_decoding collect_all (e ∷ errs) = not collect_all

unfoldable pub push_error : ErrorKind → Bytes → Bytes → Bytes → Bytes → List Error → List Error
push_error kind path expected actual detail errs =
    errs
    ++ record { kind = kind; path = path; expected = expected; actual = actual; detail = detail }
      ∷ []

-- `push` and `return false`.
unfoldable pub refuse_cell :
    ErrorKind → Bytes → Bytes → Bytes → Bytes → List Error → Noted (Option Cell)
unfolding push_error
refuse_cell kind path expected actual detail errs =
    ok (none, push_error kind path expected actual detail errs)

-- A value that the text of a node is read as, or a malformed field.
abbrev pub read_as :
    {A : Type 0}
    → Option A
    → (A → Cell)
    → Bytes
    → Bytes
    → Bytes
    → Bytes
    → List Error
    → Noted (Option Cell)
read_as none make path expected actual detail errs =
    refuse_cell malformed_field path expected actual detail errs
read_as (some a) make path expected actual detail errs = ok (some (make a), errs)

abbrev pub mismatch : Bytes → Bytes → JsonValue → List Error → Noted (Option Cell)
mismatch path expected node errs =
    refuse_cell type_mismatch path expected (json_type_name node) [] errs

abbrev infinity_bits : ℕ
infinity_bits = 0x7FF0000000000000

unfoldable pub float_token : Bytes → Option ℕ
float_token s =
    if bytes_eq s (codes "NaN")
    then some canonical_nan_bits
    else if bytes_eq s (codes "Infinity")
    then some infinity_bits
    else if bytes_eq s (codes "-Infinity")
    then some (2 ^ 63 + infinity_bits)
    else none

-- The five primitive cases of `cell`, given `std::from_chars` of a double.
unfoldable pub json_primitive :
    (Bytes → Option ℕ) → TypeRef → JsonValue → Bytes → List Error → Noted (Option Cell)
unfolding refuse_cell json_parse_int64 float_token valid_utf8 base64_decode json_type_name
json_primitive from_chars TypeRef.int (string_node s) path errs =
    read_as (json_parse_int64 s) integer path (codes "Int") (codes "json:string")
      (codes "not a base-10 64-bit integer") errs
json_primitive from_chars TypeRef.int node path errs = mismatch path (codes "Int") node errs
json_primitive from_chars TypeRef.float (number_node s) path errs =
    read_as (if length s == 0 then none else from_chars s) real path (codes "Float")
      (codes "json:number") (codes "unparseable number") errs
json_primitive from_chars TypeRef.float (string_node s) path errs =
    read_as (float_token s) real path (codes "Float") (codes "json:string")
      (codes "not a number or NaN/Infinity token") errs
json_primitive from_chars TypeRef.float node path errs = mismatch path (codes "Float") node errs
json_primitive from_chars TypeRef.text (string_node s) path errs =
    read_as (if valid_utf8 s then some s else none) Cell.text path (codes "Text")
      (codes "json:string") (codes "invalid UTF-8") errs
json_primitive from_chars TypeRef.text node path errs = mismatch path (codes "Text") node errs
json_primitive from_chars TypeRef.bool (bool_node b) path errs = ok (some (boolean b), errs)
json_primitive from_chars TypeRef.bool node path errs = mismatch path (codes "Bool") node errs
json_primitive from_chars t (string_node s) path errs =
    read_as (base64_decode s) Cell.bytes path (codes "Bytes") (codes "json:string")
      (codes "invalid base64") errs
json_primitive from_chars t node path errs = mismatch path (codes "Bytes") node errs

-- A member that the door does not declare is an error.
unfoldable pub check_member : Option FieldView → Bytes → Bytes → List Error → List Error
unfolding push_error field_path
check_member (some f) base name errs = errs
check_member none base name errs =
    push_error unknown_field (field_path base name) (codes "(a declared field)") name
      (codes "the door does not declare this field") errs

-- Every member must name a declared field.
unfoldable pub check_members : Bool → Fields → Bytes → JsonMembers → List Error → List Error
unfolding stop_decoding check_member find_field
check_members collect_all fs base no_members errs = errs
check_members collect_all fs base (member name node ms) errs =
    if stop_decoding collect_all errs
    then errs
    else check_members collect_all fs base ms (check_member (find_field fs name) base name errs)

abbrev keep_cell : Option Cell → Cells → Cells
keep_cell none cs = cs
keep_cell (some c) cs = cell c cs

-- The loop over the items of an array; an item that is not decoded is left out.
unfoldable pub json_items :
    (JsonValue → Bytes → List Error → Noted (Option Cell))
    → Bool
    → JsonItems
    → ℕ
    → Bytes
    → List Error
    → Noted Cells
unfolding stop_decoding index_path
json_items decode collect_all no_items i path errs = ok (no_cells, errs)
json_items decode collect_all (item node items) i path errs =
    if stop_decoding collect_all errs
    then ok (no_cells, errs)
    else decode node (index_path path i) errs >>= λ read.
        json_items decode collect_all items (i + 1) path (read.1) >>= λ rest.
        ok (keep_cell (read.0) (rest.0), rest.1)

-- `out.set(f.name, c)` for a field that was decoded.
unfoldable pub store_decoded : Value → Bytes → Option Cell → List Error → Noted Value
unfolding set_field
store_decoded out name none errs = ok (out, errs)
store_decoded out name (some c) errs = set_field out name c >>= λ out'. ok (out', errs)

-- One field of the loop of `fields`, given the decoder of its type.
unfoldable pub json_field :
    (JsonValue → Bytes → List Error → Noted (Option Cell))
    → Option JsonValue
    → Bytes
    → Value
    → Bytes
    → List Error
    → Noted Value
unfolding store_decoded field_path
json_field decode none name out base errs = ok (out, errs)
json_field decode (some node) name out base errs =
    decode node (field_path base name) errs >>= λ read. store_decoded out name (read.0) (read.1)

module _ (from_chars : Bytes → Option ℕ) (collect_all : Bool) where
  unfoldable mutual
    -- `cell`.
    pub json_cell : TypeRef → JsonValue → Bytes → List Error → Noted (Option Cell)
    json_cell (TypeRef.message s) (object_node ms) path errs =
        json_object s ms path errs >>= λ read. ok (some (Cell.message (read.0)), read.1)
    json_cell (TypeRef.message s) node path errs =
        mismatch path (type_label (TypeRef.message s)) node errs
    json_cell (TypeRef.list t) (array_node items) path errs =
        json_items (json_cell t) collect_all items 0 path errs >>= λ read.
        ok (some (Cell.list (read.0)), read.1)
    json_cell (TypeRef.list t) node path errs =
        mismatch path (type_label (TypeRef.list t)) node errs
    json_cell t node path errs = json_primitive from_chars t node path errs

    -- `fields`, into a new value of the door.
    pub json_object : Schema → JsonMembers → Bytes → List Error → Noted Value
    json_object (schema name version fs cid) ms base errs =
        json_fields fs ms (make_value (schema name version fs cid)) base
          (check_members collect_all fs base ms errs)

    -- The loop of `fields` over the door's fields.
    pub json_fields : Fields → JsonMembers → Value → Bytes → List Error → Noted Value
    json_fields no_fields ms out base errs = ok (out, errs)
    json_fields (field n t r fs) ms out base errs =
        if stop_decoding collect_all errs
        then ok (out, errs)
        else json_field (json_cell t) (find_member ms n) n out base errs >>= λ read.
            json_fields fs ms (read.0) base (read.1)
