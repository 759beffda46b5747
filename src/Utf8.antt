-- ===== src/Utf8.antt =====
-- src/detail/json.cpp, `valid_utf8`: whether a byte string is well-formed UTF-8.
use zen.Prelude.{Bool, Option, [], bit_and, bit_or, false, if◌then◌else◌, leb, length, ltb, none}
use zen.Prelude.{not, some, suc, true, zero, ℕ, ◌%◌, ◌&&◌, ◌*◌, ◌==◌, ◌^◌, ◌||◌, ◌∷◌}
use zen.Binary.{Bytes}

-- The class of a leading byte above 0x7F: how many bytes follow, the bits that the byte carries,
-- and the least and the largest code point of that length.
pub record Lead : Type 0 where
  pub extra : ℕ
  pub code_point : ℕ
  pub least : ℕ
  pub largest : ℕ

unfoldable pub lead_of : ℕ → Option Lead
lead_of c =
    if bit_and c 0xE0 == 0xC0
    then some (record { extra = 1; code_point = bit_and c 0x1F; least = 0x80; largest = 0x7FF })
    else if bit_and c 0xF0 == 0xE0
    then some (record { extra = 2; code_point = bit_and c 0x0F; least = 0x800; largest = 0xFFFF })
    else if bit_and c 0xF8 == 0xF0
    then some
        (record { extra = 3; code_point = bit_and c 0x07; least = 0x10000; largest = 0x10FFFF })
    else none

-- The loop over the bytes that follow, which are there: the code point and the bytes behind it.
unfoldable pub continuation : ℕ → ℕ → Bytes → Option (ℕ × Bytes)
continuation zero cp s = some (cp, s)
continuation (suc extra) cp [] = none
continuation (suc extra) cp (c ∷ s) =
    if bit_and c 0xC0 == 0x80
    then continuation extra (bit_or (cp * 2 ^ 6 % 2 ^ 32) (bit_and c 0x3F)) s
    else none

unfoldable pub in_range : Lead → ℕ → Bool
in_range l cp = not (ltb cp l.least || ltb l.largest cp) && not (leb 0xD800 cp && leb cp 0xDFFF)

-- Each round of the loop takes a byte at least, so the length of the input is fuel enough.
unfoldable pub utf8_loop : ℕ → Bytes → Bool
unfolding lead_of continuation in_range
utf8_loop fuel [] = true
utf8_loop zero (c ∷ s) = false
utf8_loop (suc fuel) (c ∷ s) = elim (ltb c 0x80) [
  | true ↦ utf8_loop fuel s
  | false ↦ elim (lead_of c) [
    | none ↦ false
    | some l ↦ elim (ltb (length s) l.extra) [
      | true ↦ false
      | false ↦ elim (continuation l.extra l.code_point s) [
        | none ↦ false
        | some (cp, rest) ↦ in_range l cp && utf8_loop fuel rest
      ]
    ]
  ]
]

unfoldable pub valid_utf8 : Bytes → Bool
unfolding utf8_loop
valid_utf8 s = utf8_loop (length s) s
