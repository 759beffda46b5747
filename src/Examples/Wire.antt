-- ===== src/Examples/Wire.antt =====
-- Runs of src/detail/binary.cpp and of the native header of src/serialize.cpp.
use zen.Prelude.{All, Bool, Bool-cases, IsByte, [], arith, codes, inl, inr, ltb, ltb→lt, refl}
use zen.Prelude.{some, sym, true, true-neq-false, ℕ, ◌&&◌, ◌++◌, ◌∷◌, ◌≡◌}
use zen.Prelude.Int.{pos}
use zen.Binary.{Bytes, f64le, is_nan, is_negative, put_f64le, put_le, put_u64le, put_u8}
use zen.Binary.{put_uvarint, put_uvarint_loop, put_zigzag, to_u64, u64le, uvarint, zigzag}
use zen.Binary.Fixed.{u64le_iff}
use zen.Binary.Varint.{uvarint_iff}
use zen.Binary.Zigzag.{zigzag_iff}
use zen.Binary.Float.{IsCanonicalFloat, f64le-put_f64le, f64le_iff, normalize_nan}
use zen.Schema.{Schema, no_fields, schema}
use zen.Utf8.{utf8_loop, valid_utf8}
use zen.Serialize.Envelope.{claim, parse, put_header}
use zen.Serialize.Header.{parse-put_header}

abbrev pub are_octets : Bytes → Bool
are_octets [] = true
are_octets (b ∷ bs) = ltb b 256 && are_octets bs

pub small_octets : (bs : Bytes) → are_octets bs ≡ true → All IsByte bs
small_octets [] h = tt
small_octets (b ∷ bs) h = elim (Bool-cases (ltb b 256)) [
  | inl small ↦ (ltb→lt b 256 small, small_octets bs (rw small at h))
  | inr large ↦ absurd (true-neq-false (sym (rw large at h)))
]

abbrev three_hundred : Bytes
three_hundred = 0xAC ∷ 0x02 ∷ 0x07 ∷ []

three_hundred-IsByte : All IsByte three_hundred
three_hundred-IsByte = small_octets three_hundred refl

three_hundred_written : three_hundred ≡ put_uvarint [] 300 ++ 7 ∷ []
unfolding put_uvarint put_uvarint_loop put_u8
three_hundred_written = refl

-- 300 is two octets on the wire.
uvarint_iff_example : uvarint three_hundred ≡ some (300, 7 ∷ [])
uvarint_iff_example =
    (uvarint_iff three_hundred 300 (7 ∷ []) three_hundred-IsByte).1
      (omega arith, three_hundred_written)

minus_150_written : three_hundred ≡ put_zigzag [] (pos 150) ++ 7 ∷ []
unfolding put_zigzag to_u64 is_negative put_uvarint put_uvarint_loop put_u8
minus_150_written = refl

zigzag_iff_example : zigzag three_hundred ≡ some (pos 150, 7 ∷ [])
zigzag_iff_example =
    (zigzag_iff three_hundred (pos 150) (7 ∷ []) three_hundred-IsByte).1
      (omega arith, minus_150_written)

-- One, as a double.
abbrev one_bits : ℕ
one_bits = 0x3FF0000000000000

abbrev one_bytes : Bytes
one_bytes = 0 ∷ 0 ∷ 0 ∷ 0 ∷ 0 ∷ 0 ∷ 0xF0 ∷ 0x3F ∷ []

one_bytes-IsByte : All IsByte one_bytes
one_bytes-IsByte = small_octets one_bytes refl

one_written : one_bytes ≡ put_f64le [] one_bits ++ []
unfolding put_f64le put_u64le put_le put_u8 is_nan
one_written = refl

one-IsCanonicalFloat : IsCanonicalFloat one_bits
one-IsCanonicalFloat = unfold is_nan in λ e. absurd (true-neq-false (sym e))

f64le_iff_example : f64le one_bytes ≡ some (one_bits, [])
f64le_iff_example =
    (f64le_iff one_bytes one_bits [] one_bytes-IsByte).1
      (omega arith, one-IsCanonicalFloat, one_written)

f64le-put_f64le_example : f64le (put_f64le [] one_bits ++ []) ≡ some (normalize_nan one_bits, [])
f64le-put_f64le_example = f64le-put_f64le one_bits [] (omega arith) tt

u64le_iff_example : u64le one_bytes ≡ some (one_bits, [])
u64le_iff_example =
    (u64le_iff one_bytes one_bits [] one_bytes-IsByte).1 (omega arith, one_written_u64)
  where
    one_written_u64 : one_bytes ≡ put_u64le [] one_bits ++ []
    one_written_u64 = unfold put_u64le put_le put_u8 in refl

-- A header for a schema without fields, and a body of one octet.
abbrev ping_schema : Schema
ping_schema = schema (codes "Ping") 1 no_fields 77

ping_octets : All IsByte (codes "Ping")
ping_octets = small_octets (codes "Ping") refl

ping_utf8 : valid_utf8 (codes "Ping") ≡ true
ping_utf8 = unfold valid_utf8 utf8_loop in refl

parse-put_header_example :
    parse (put_header ping_schema ++ 0 ∷ []) ≡ claim (codes "Ping") 1 77 (0 ∷ [])
parse-put_header_example =
    parse-put_header ping_schema (0 ∷ []) (omega arith) ping_utf8 (omega arith) (omega arith)
      ping_octets (omega arith, tt)
