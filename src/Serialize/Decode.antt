-- ===== src/Serialize/Decode.antt =====
-- src/serialize.cpp: the native decoder. A failed read is fatal: it records one error, and
-- everything returns at once; so the decoder's error list and flag are the outcome `fatal`.
use zen.Prelude.{Bool, Option, [], bit_and, codes, drop, false, if◌then◌else◌, length, ltb, none}
use zen.Prelude.{not, some, suc, take, true, zero, ℕ, ◌%◌, ◌+◌, ◌-◌, ◌/◌, ◌==◌, ◌^◌, ◌||◌, ◌∷◌}
use zen.Binary.{Bytes, f64le, max_binary_depth, max_field_bytes, max_list_count, take_bytes, u8}
use zen.Binary.{uvarint, zigzag}
use zen.Failure.{Exception, ok, throw}
use zen.Schema.{Fields, Schema, TypeRef, field, field_count, no_fields, schema, type_label}
use zen.Value.{Cell, Cells, Value, boolean, cell, integer, make_value, no_cells, real, set_field}
use zen.Gate.{Error, ErrorKind, field_path, index_path, malformed_bytes, malformed_field}
use zen.Utf8.{valid_utf8}
use zen.Serialize.Encode.{mask_size}

pub data Outcome (A : Type 0) : Type 0 where
  done : A → Bytes → Outcome A
  fatal : Error → Outcome A
  uncaught : Exception → Outcome A

abbrev pub then_do : {A B : Type 0} → Outcome A → (A → Bytes → Outcome B) → Outcome B
then_do (done a r) f = f a r
then_do (fatal e) f = fatal e
then_do (uncaught x) f = uncaught x

unfoldable pub fail : {A : Type 0} → ErrorKind → Bytes → Bytes → Bytes → Outcome A
fail k path expected detail = fatal (record {
  kind = k;
  path = path;
  expected = expected;
  actual = codes "binary";
  detail = detail;
})

-- A read, with the error that its failure is.
abbrev pub read_or : {A : Type 0} → Option (A × Bytes) → Outcome A → Outcome A
read_or none failure = failure
read_or (some (a, r)) failure = done a r

abbrev too_deep : {A : Type 0} → Bytes → Outcome A
too_deep path = fail malformed_bytes path [] (codes "maximum nesting depth exceeded")

unfoldable pub decode_bool : Bytes → ℕ → Bytes → Outcome Cell
decode_bool path b r =
    if ltb 1 b
    then fail malformed_field path (codes "Bool") (codes "byte is not 0x00 or 0x01")
    else done (boolean (not (b == 0))) r

-- A length within the cap and the input, and that many bytes.
unfoldable pub decode_run : Bytes → Bytes → Bytes → Outcome Bytes
decode_run label path r =
    then_do
      (read_or (uvarint r)
        (fail malformed_field path label (codes "truncated or non-minimal length")))
      λ len r'.
        if ltb max_field_bytes len || ltb (length r') len
        then fail malformed_field path label (codes "length exceeds remaining input or cap")
        else done (take len r') (drop len r')

unfoldable pub decode_text : Bytes → Bytes → Outcome Cell
decode_text path r = then_do (decode_run (codes "Text") path r) λ s r'.
    if valid_utf8 s
    then done (Cell.text s) r'
    else fail malformed_field path (codes "Text") (codes "invalid UTF-8")

-- The five primitive cases of `value`.
unfoldable pub decode_primitive : TypeRef → Bytes → Bytes → Outcome Cell
decode_primitive TypeRef.int path r =
    then_do
      (read_or (zigzag r)
        (fail malformed_field path (codes "Int") (codes "truncated or non-minimal varint")))
      λ v r'. done (integer v) r'
decode_primitive TypeRef.float path r =
    then_do
      (read_or (f64le r)
        (fail malformed_field path (codes "Float") (codes "truncated or non-canonical float")))
      λ bits r'. done (real bits) r'
decode_primitive TypeRef.text path r = decode_text path r
decode_primitive TypeRef.bool path r =
    then_do (read_or (u8 r) (fail malformed_field path (codes "Bool") (codes "truncated")))
      (decode_bool path)
decode_primitive _ path r =
    then_do (decode_run (codes "Bytes") path r) λ s r'. done (Cell.bytes s) r'

-- The loop over the elements of a list, with the number that is left and the next index.
unfoldable pub decode_elements :
    (Bytes → Bytes → Outcome Cell) → ℕ → ℕ → Bytes → Bytes → Outcome Cells
decode_elements decode zero k path r = done no_cells r
decode_elements decode (suc left) k path r =
    then_do (decode (index_path path k) r)
      λ c r'. then_do (decode_elements decode left (k + 1) path r') λ cs r''. done (cell c cs) r''

unfoldable pub decode_list : (Bytes → Bytes → Outcome Cell) → TypeRef → Bytes → Bytes → Outcome Cell
decode_list decode t path r =
    then_do
      (read_or (uvarint r) (
        fail malformed_field path (type_label (TypeRef.list t))
          (codes "truncated or non-minimal count")))
      λ count r'.
        if ltb max_list_count count
        then fail malformed_field path (type_label (TypeRef.list t))
            (codes "list count exceeds cap")
        else then_do (decode_elements decode count 0 path r') λ cs r''. done (Cell.list cs) r''

-- The octet `mask[i]`.
abbrev pub octet_at : Bytes → ℕ → ℕ
octet_at [] i = 0
octet_at (b ∷ mask) zero = b
octet_at (b ∷ mask) (suc i) = octet_at mask i

-- `(byte >> (i % 8)) & 1`.
unfoldable pub mask_bit : Bytes → ℕ → Bool
mask_bit mask i = not (bit_and (octet_at mask (i / 8) / 2 ^ (i % 8)) 1 == 0)

-- The presence bitmask of `n` fields: a bit beyond the last field must be clear.
unfoldable pub padding_clear : Bytes → ℕ → Bool
padding_clear mask n =
    n % 8 == 0 || bit_and (octet_at mask (mask_size n - 1)) (255 - (2 ^ (n % 8) - 1) % 256) == 0

unfoldable pub decode_mask : ℕ → Bytes → Bytes → Outcome Bytes
decode_mask n base r =
    then_do
      (read_or (take_bytes (mask_size n) r)
        (fail malformed_bytes base [] (codes "truncated presence bitmask")))
      λ mask r'.
        if padding_clear mask n
        then done mask r'
        else fail malformed_bytes base [] (codes "non-zero padding bit in presence bitmask")

-- `out.set(name, c)`.
abbrev pub store_field : Value → Bytes → Cell → Bytes → Outcome Value
store_field out name c r = elim (set_field out name c) [
  | ok out' ↦ done out' r
  | throw x ↦ uncaught x
]

-- One field of the loop of `body`, given its presence bit.
unfoldable pub decode_slot :
    (Bytes → Bytes → Outcome Cell) → Bytes → Bool → Value → Bytes → Bytes → Outcome Value
decode_slot decode name false out base r = done out r
decode_slot decode name true out base r =
    then_do (decode (field_path base name) r) λ c r'. store_field out name c r'

unfoldable mutual
  -- `value`.
  pub decode_cell : TypeRef → ℕ → Bytes → Bytes → Outcome Cell
  decode_cell (TypeRef.message s) depth path r =
      if ltb max_binary_depth depth
      then too_deep path
      else then_do (decode_body s (depth + 1) path r) λ v r'. done (Cell.message v) r'
  decode_cell (TypeRef.list t) depth path r =
      if ltb max_binary_depth depth
      then too_deep path
      else decode_list (decode_cell t (depth + 1)) t path r
  decode_cell t depth path r =
      if ltb max_binary_depth depth then too_deep path else decode_primitive t path r

  -- `body`, into a new value of the door.
  pub decode_body : Schema → ℕ → Bytes → Bytes → Outcome Value
  decode_body (schema name version fs cid) depth base r =
      if ltb max_binary_depth depth
      then too_deep base
      else then_do (decode_mask (field_count fs) base r)
          λ mask r'. decode_fields fs depth 0 mask (make_value (schema name version fs cid)) base r'

  -- The loop of `body` from field `i` on.
  pub decode_fields : Fields → ℕ → ℕ → Bytes → Value → Bytes → Bytes → Outcome Value
  decode_fields no_fields depth i mask out base r = done out r
  decode_fields (field n t q fs) depth i mask out base r =
      then_do (decode_slot (decode_cell t depth) n (mask_bit mask i) out base r)
        λ out' r'. decode_fields fs depth (i + 1) mask out' base r'
