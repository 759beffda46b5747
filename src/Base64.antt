-- ===== src/Base64.antt =====
-- src/detail/base64.cpp: standard base64 with padding, and its strict decoding.
pub mod Symbols
pub mod Quads
pub mod Strict
use zen.Prelude.{Bool, Option, [], bit_and, bit_or, codes, false, if◌then◌else◌, length, none}
use zen.Prelude.{not, some, suc, true, zero, ℕ, ◌%◌, ◌&&◌, ◌*◌, ◌++◌, ◌+◌, ◌/◌, ◌==◌, ◌^◌, ◌||◌}
use zen.Prelude.{◌∷◌}
use zen.Binary.{Bytes}

abbrev alphabet : Bytes
alphabet = codes "ABCDEFGHIJKLMNOPQRSTUVWXYZabcdefghijklmnopqrstuvwxyz0123456789+/"

-- `kAlphabet[i]`.
unfoldable pub symbol_from : Bytes → ℕ → ℕ
symbol_from [] i = 0
symbol_from (a ∷ symbols) zero = a
symbol_from (a ∷ symbols) (suc i) = symbol_from symbols i

unfoldable pub symbol : ℕ → ℕ
unfolding symbol_from
symbol i = symbol_from alphabet i

-- The entry of `c` while `make_reverse` fills the table: the index `i` of each symbol in turn.
unfoldable pub make_reverse : Bytes → ℕ → ℕ → ℕ → ℕ
make_reverse [] i c entry = entry
make_reverse (a ∷ symbols) i c entry = make_reverse symbols (i + 1) c (if c == a then i else entry)

unfoldable pub reverse_entry : ℕ → ℕ
unfolding make_reverse
reverse_entry c = make_reverse alphabet 0 c 0xFF

-- `kAlphabet[(n >> s) & 0x3F]`.
unfoldable pub sextet : ℕ → ℕ → ℕ
unfolding symbol
sextet n s = symbol (bit_and (n / 2 ^ s) 0x3F)

unfoldable pub base64_encode : Bytes → Bytes
unfolding sextet
base64_encode [] = []
base64_encode (a ∷ []) = let n = a * 2 ^ 16 % 2 ^ 32 in sextet n 18 ∷ sextet n 12 ∷ b'=' ∷ b'=' ∷ []
base64_encode (a ∷ b ∷ []) =
    let n = bit_or (a * 2 ^ 16 % 2 ^ 32) (b * 2 ^ 8 % 2 ^ 32) in
    sextet n 18 ∷ sextet n 12 ∷ sextet n 6 ∷ b'=' ∷ []
base64_encode (a ∷ b ∷ c ∷ rest) =
    let n = bit_or (bit_or (a * 2 ^ 16 % 2 ^ 32) (b * 2 ^ 8 % 2 ^ 32)) c in
    sextet n 18 ∷ sextet n 12 ∷ sextet n 6 ∷ sextet n 0 ∷ base64_encode rest

-- One quad of the loop of `base64_decode`, given which of its last two characters are padding,
-- whether it is the last quad, and the table's entries of its characters.
unfoldable pub decode_entries : Bool → Bool → Bool → ℕ → ℕ → ℕ → ℕ → Option Bytes
decode_entries pad2 pad3 last v0 v1 v2 v3 =
    let first_octet = bit_or (v0 * 2 ^ 2) (v1 / 2 ^ 4) % 2 ^ 8 in
    let second_octet = bit_or (v1 * 2 ^ 4) (v2 / 2 ^ 2) % 2 ^ 8 in
    let third_octet = bit_or (v2 * 2 ^ 6) v3 % 2 ^ 8 in
    if (pad2 || pad3) && not last
    then none
    else if pad2 && not pad3
    then none
    else if v0 == 0xFF || v1 == 0xFF
    then none
    else if pad3 && pad2
    then if not (bit_and v1 0x0F == 0) then none else some (first_octet ∷ [])
    else if v2 == 0xFF
    then none
    else if pad3
    then if not (bit_and v2 0x03 == 0) then none else some (first_octet ∷ second_octet ∷ [])
    else if v3 == 0xFF
    then none
    else some (first_octet ∷ second_octet ∷ third_octet ∷ [])

abbrev pub is_last : Bytes → Bool
is_last [] = true
is_last (c ∷ rest) = false

-- What the quads of the loop push, in order.
abbrev pub then_push : Option Bytes → Option Bytes → Option Bytes
then_push none more = none
then_push (some pushed) none = none
then_push (some pushed) (some more) = some (pushed ++ more)

unfoldable pub decode_quads : Bytes → Option Bytes
unfolding reverse_entry decode_entries
decode_quads [] = some []
decode_quads (c0 ∷ c1 ∷ c2 ∷ c3 ∷ rest) =
    then_push
      (decode_entries (c2 == b'=') (c3 == b'=') (is_last rest) (reverse_entry c0) (reverse_entry c1)
        (reverse_entry c2) (reverse_entry c3))
      (decode_quads rest)
decode_quads _ = none

-- `false` is `none`; the buffer is then unspecified.
unfoldable pub base64_decode : Bytes → Option Bytes
unfolding decode_quads
base64_decode in_text = if not (length in_text % 4 == 0) then none else decode_quads in_text
