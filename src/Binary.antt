-- ===== src/Binary.antt =====
-- src/detail/binary.cpp and binary.hpp: the primitives of the native binary wire format.
-- A `std::string` that is appended to is the list of its bytes. A `BinReader` is the list of the
-- bytes it has not read yet, so `remaining()` is its length; a failed read is `none`, and since
-- every caller gives up after one, what a failed read leaves of the input is not kept.
-- A double is its IEEE-754 bit pattern, which is all that the code reads of it.
pub mod Fixed
pub mod Groups
pub mod Rounds
pub mod Varint
pub mod Zigzag
pub mod Float
use zen.Prelude.{Bool, List, Option, [], arith, bit_and, bit_or, bit_xor, drop, false}
use zen.Prelude.{if◌then◌else◌, leb, length, ltb, none, not, some, suc, take, true, zero, ℕ, ◌%◌}
use zen.Prelude.{◌&&◌, ◌*◌, ◌++◌, ◌+◌, ◌-◌, ◌/◌, ◌<◌, ◌==◌, ◌^◌, ◌∷◌}
use zen.Prelude.Int.{negsuc, pos, ℤ}
use zen.Prelude.Order.{lt_wf}
use mathlib.Core.Logic.{dite}
use mathlib.Core.WellFounded.{Acc}
use native.Mathlib.Decide.{dec_le}

abbrev pub Bytes : Type 0
Bytes = List ℕ

abbrev pub Reader : Type 0 → Type 0
Reader A = Bytes → Option (A × Bytes)

abbrev pub max_binary_depth : ℕ
max_binary_depth = 64

abbrev pub max_list_count : ℕ
max_list_count = 2 ^ 20

abbrev pub max_field_bytes : ℕ
max_field_bytes = 2 ^ 28

abbrev pub canonical_nan_bits : ℕ
canonical_nan_bits = 0x7FF8000000000000

-- Writers. The argument of `put_u8` is an octet already: the casts stand at its calls.
unfoldable pub put_u8 : Bytes → ℕ → Bytes
put_u8 out v = out ++ v ∷ []

unfoldable pub put_u16le : Bytes → ℕ → Bytes
unfolding put_u8
put_u16le out v = put_u8 (put_u8 out (bit_and v 0xFF % 256)) (bit_and (v / 2 ^ 8) 0xFF % 256)

-- `for (int s = 0; s < w; s += 8)`, with the rounds that are left.
unfoldable pub put_le : ℕ → Bytes → ℕ → ℕ → Bytes
unfolding put_u8
put_le zero out v s = out
put_le (suc rounds) out v s = put_le rounds (put_u8 out (bit_and (v / 2 ^ s) 0xFF % 256)) v (s + 8)

unfoldable pub put_u32le : Bytes → ℕ → Bytes
put_u32le out v = put_le 4 out v 0

unfoldable pub put_u64le : Bytes → ℕ → Bytes
put_u64le out v = put_le 8 out v 0

-- All exponent bits set, and a mantissa bit.
unfoldable pub is_nan : ℕ → Bool
is_nan bits =
    bit_and bits 0x7FF0000000000000 == 0x7FF0000000000000
    && not (bit_and bits 0x000FFFFFFFFFFFFF == 0)

unfoldable pub put_f64le : Bytes → ℕ → Bytes
put_f64le out bits = put_u64le out (if is_nan bits then canonical_nan_bits else bits)

-- `while (v >= 0x80)`: `v >>= 7` makes `v` smaller.
unfoldable pub put_uvarint_loop : Bytes → (v : ℕ) → Acc ◌<◌ v → Bytes
unfolding put_u8
put_uvarint_loop out v (Acc.intro _ smaller) =
    dite (dec_le 0x80 v)
      (λ more.
        put_uvarint_loop (put_u8 out (bit_or (bit_and v 0x7F) 0x80 % 256)) (v / 2 ^ 7)
          (smaller (v / 2 ^ 7) (omega arith)))
      (λ _. put_u8 out (v % 256))

unfoldable pub put_uvarint : Bytes → ℕ → Bytes
unfolding put_uvarint_loop lt_wf dec_le
put_uvarint out v = put_uvarint_loop out v (lt_wf.apply v)

-- `static_cast<std::uint64_t>` of an `std::int64_t`, and the cast back.
unfoldable pub to_u64 : ℤ → ℕ
to_u64 (pos n) = n
to_u64 (negsuc n) = 2 ^ 64 - 1 - n

unfoldable pub to_i64 : ℕ → ℤ
to_i64 w = if ltb w (2 ^ 63) then pos w else negsuc (2 ^ 64 - 1 - w)

unfoldable pub is_negative : ℤ → Bool
is_negative (pos n) = false
is_negative (negsuc n) = true

unfoldable pub put_zigzag : Bytes → ℤ → Bytes
unfolding is_negative to_u64
put_zigzag out v =
    let sign = if is_negative v then 2 ^ 64 - 1 else 0 in
    put_uvarint out (bit_xor (to_u64 v * 2 % 2 ^ 64) sign)

-- Readers.
unfoldable pub u8 : Reader ℕ
u8 [] = none
u8 (b ∷ rest) = some (b, rest)

-- `v |= static_cast<T>(p_[i_ + b]) << (8 * b)` for the bytes of a word of `w` bits.
unfoldable pub or_le : ℕ → ℕ → Bytes → ℕ → ℕ → ℕ
or_le w zero bytes b v = v
or_le w (suc rounds) [] b v = v
or_le w (suc rounds) (p ∷ bytes) b v =
    or_le w rounds bytes (b + 1) (bit_or v (p * 2 ^ (8 * b) % 2 ^ w))

-- A read of `n` bytes as a word of `w` bits, with the bounds check in front.
unfoldable pub read_le : ℕ → ℕ → Reader ℕ
unfolding or_le
read_le w n bytes = if ltb (length bytes) n then none else some (or_le w n bytes 0 0, drop n bytes)

unfoldable pub u16le : Reader ℕ
u16le bytes = read_le 16 2 bytes

unfoldable pub u32le : Reader ℕ
u32le bytes = read_le 32 4 bytes

unfoldable pub u64le : Reader ℕ
u64le bytes = read_le 64 8 bytes

unfoldable pub canonical_float : ℕ × Bytes → Option (ℕ × Bytes)
canonical_float (bits, rest) =
    if is_nan bits && not (bits == canonical_nan_bits) then none else some (bits, rest)

unfoldable pub f64le : Reader ℕ
unfolding canonical_float
f64le bytes = elim (u64le bytes) [ none ↦ none | some r ↦ canonical_float r ]

-- `for (int idx = 0;; ++idx)`: each round reads a byte.
unfoldable pub uvarint_loop : ℕ → ℕ → ℕ → Reader ℕ
uvarint_loop idx shift result [] = none
uvarint_loop idx shift result (b ∷ rest) =
    let result' = bit_or result (bit_and b 0x7F * 2 ^ shift % 2 ^ 64) in
    let more = uvarint_loop (idx + 1) (shift + 7) result' rest in
    if leb 10 idx
    then none
    else if idx == 9 && ltb 1 b
    then none
    else if bit_and b 0x80 == 0
    then if ltb 0 idx && b == 0 then none else some (result', rest)
    else more

unfoldable pub uvarint : Reader ℕ
uvarint bytes = uvarint_loop 0 0 0 bytes

unfoldable pub unzigzag : ℕ → ℤ
unfolding to_i64
unzigzag zz = let neg = (2 ^ 64 - 1 - bit_and zz 1 + 1) % 2 ^ 64 in to_i64 (bit_xor (zz / 2) neg)

unfoldable pub zigzag : Reader ℤ
zigzag bytes = elim (uvarint bytes) [ none ↦ none | some (zz, rest) ↦ some (unzigzag zz, rest) ]

unfoldable pub take_bytes : ℕ → Reader Bytes
take_bytes count bytes =
    if ltb (length bytes) count then none else some (take count bytes, drop count bytes)
