-- ===== src/Serialize/Encode.antt =====
-- src/serialize.cpp: the native encoder.
use zen.Prelude.{[], bit_or, codes, if◌then◌else◌, length, replicate, suc, zero, ℕ, ◌%◌, ◌*◌}
use zen.Prelude.{◌++◌, ◌+◌, ◌/◌, ◌^◌, ◌∷◌}
use zen.Binary.{Bytes, put_f64le, put_u8, put_uvarint, put_zigzag}
use zen.Failure.{Exception, Throws, invalid_argument, ok, throw, ◌>>=◌}
use zen.Schema.{Fields, Kind, TypeRef, field, field_count, kind_name, kind_of, schema_fields}
use zen.Value.{Cell, Cells, Slots, Value, absent, boolean, cell, cell_kind, cells_length, integer}
use zen.Value.{no_cells, present, real, value}

-- What `bin_require_kind` throws. Its test is the match of `encode_cell` on kind and cell.
unfoldable pub kind_refused : Cell → Kind → Exception
kind_refused c expected = invalid_argument (
    codes "serialize: a field holds "
    ++ (kind_name (cell_kind c)
        ++ (codes " but its schema declares "
            ++ (kind_name expected ++ codes " (validate the value before serializing)"))))

unfoldable pub null_refused : Exception
null_refused =
    invalid_argument
      (codes "serialize: a present Message field is null (validate before serializing)")

-- `out[pos] |= bits`.
unfoldable pub or_at : Bytes → ℕ → ℕ → Bytes
or_at [] at bits = []
or_at (b ∷ out) zero bits = bit_or b bits ∷ out
or_at (b ∷ out) (suc at) bits = b ∷ or_at out at bits

abbrev pub mask_size : ℕ → ℕ
mask_size n = (n + 7) / 8

unfoldable mutual
  -- `bin_encode_value`.
  pub encode_cell : Cell → TypeRef → Bytes → Throws Bytes
  encode_cell (integer v) TypeRef.int out = ok (put_zigzag out v)
  encode_cell (real bits) TypeRef.float out = ok (put_f64le out bits)
  encode_cell (Cell.text s) TypeRef.text out = ok (put_uvarint out (length s) ++ s)
  encode_cell (boolean b) TypeRef.bool out = ok (put_u8 out (if b then 1 else 0))
  encode_cell (Cell.bytes s) TypeRef.bytes out = ok (put_uvarint out (length s) ++ s)
  encode_cell (Cell.message v) (TypeRef.message s) out = encode_body v out
  encode_cell Cell.null_message (TypeRef.message s) out = throw null_refused
  encode_cell (Cell.list cs) (TypeRef.list t) out =
      encode_cells cs t (put_uvarint out (cells_length cs))
  encode_cell c t out = throw (kind_refused c (kind_of t))

  pub encode_cells : Cells → TypeRef → Bytes → Throws Bytes
  encode_cells no_cells t out = ok out
  encode_cells (cell c cs) t out = encode_cell c t out >>= λ out'. encode_cells cs t out'

  -- `bin_encode_body`: the bitmask first, all zero, and its bits set as the fields are written.
  pub encode_body : Value → Bytes → Throws Bytes
  encode_body (value s slots) out =
      encode_slots slots (schema_fields s) 0 (length out)
        (out ++ replicate (mask_size (field_count (schema_fields s))) 0)

  -- The loop from slot `i` on.
  pub encode_slots : Slots → Fields → ℕ → ℕ → Bytes → Throws Bytes
  encode_slots (absent slots) (field n t r fs) i mask_pos out =
      encode_slots slots fs (i + 1) mask_pos out
  encode_slots (present c slots) (field n t r fs) i mask_pos out =
      encode_cell c t (or_at out (mask_pos + i / 8) (1 * 2 ^ (i % 8) % 256)) >>= λ out'.
      encode_slots slots fs (i + 1) mask_pos out'
  encode_slots slots fs i mask_pos out = ok out
