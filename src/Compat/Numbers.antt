-- ===== src/Compat/Numbers.antt =====
-- src/serialize.cpp: the numbers of the JSON format.
use zen.Prelude.{Bool, Option, [], bit_or, codes, drop, if◌then◌else◌, leb, length, ltb, none}
use zen.Prelude.{some, suc, zero, ℕ, ◌%◌, ◌&&◌, ◌*◌, ◌++◌, ◌+◌, ◌-◌, ◌==◌, ◌^◌, ◌||◌, ◌∷◌}
use zen.Prelude.Int.{negsuc, pos, ℤ}
use zen.Binary.{Bytes, is_nan}
use zen.Failure.{to_string}
use zen.Json.{advance, peek}
use zen.Json.Text.{hex_value}
use zen.Json.Number.{is_digit}

-- A text of decimal digits alone, as `std::from_chars` reads it to its end.
unfoldable pub decimal_loop : Bytes → ℕ → Option ℕ
unfolding is_digit
decimal_loop [] v = some v
decimal_loop (c ∷ chars) v = if is_digit c then decimal_loop chars (v * 10 + (c - b'0')) else none

unfoldable pub decimal_value : Bytes → Option ℕ
unfolding decimal_loop
decimal_value [] = none
decimal_value (c ∷ chars) = decimal_loop (c ∷ chars) 0

abbrev pub signed_in_range : ℕ → (ℕ → ℤ) → Option ℕ → Option ℤ
signed_in_range bound sign none = none
signed_in_range bound sign (some v) = if ltb v bound then some (sign v) else none

abbrev pub negated : ℕ → ℤ
negated zero = pos 0
negated (suc n) = negsuc n

unfoldable pub json_parse_int64 : Bytes → Option ℤ
unfolding decimal_value
json_parse_int64 [] = none
json_parse_int64 (c ∷ chars) =
    if c == b'-'
    then signed_in_range (2 ^ 63 + 1) negated (decimal_value chars)
    else signed_in_range (2 ^ 63) pos (decimal_value (c ∷ chars))

abbrev pub below : ℕ → Option ℕ → Option ℕ
below bound none = none
below bound (some v) = if ltb v bound then some v else none

unfoldable pub json_parse_u32 : Bytes → Option ℕ
unfolding decimal_value
json_parse_u32 chars = below (2 ^ 32) (decimal_value chars)

unfoldable pub content_id_loop : Bytes → ℕ → Option ℕ
unfolding hex_value
content_id_loop [] v = some v
content_id_loop (c ∷ chars) v = elim (hex_value c) [
  | none ↦ none
  | some d ↦ content_id_loop chars (bit_or (v * 2 ^ 4 % 2 ^ 64) d)
]

-- `text.remove_prefix(2)` over a `0x` or a `0X`.
abbrev pub remove_prefix : Bytes → Bytes
remove_prefix chars =
    if leb 2 (length chars)
      && peek chars == b'0'
      && (peek (advance chars) == b'x' || peek (advance chars) == b'X')
    then drop 2 chars
    else chars

unfoldable pub json_parse_content_id : Bytes → Option ℕ
unfolding content_id_loop
json_parse_content_id chars =
    let digits = remove_prefix chars in
    if length digits == 0 || ltb 16 (length digits) then none else content_id_loop digits 0

-- `std::to_string` and `std::to_chars` of a signed number.
unfoldable pub int_text : ℤ → Bytes
unfolding to_string
int_text (pos n) = to_string n
int_text (negsuc n) = b'-' ∷ to_string (n + 1)

unfoldable pub json_encode_int : ℤ → Bytes → Bytes
unfolding int_text
json_encode_int v out = ((out ++ b'"' ∷ []) ++ int_text v) ++ b'"' ∷ []

abbrev pub is_infinite : ℕ → Bool
is_infinite bits = bits % 2 ^ 63 == 0x7FF0000000000000

-- Given `std::to_chars` of a double.
unfoldable pub json_encode_float : (ℕ → Bytes) → ℕ → Bytes → Bytes
unfolding is_nan
json_encode_float to_chars bits out =
    if is_nan bits
    then out ++ codes "\"NaN\""
    else if is_infinite bits
    then out ++ (if leb (2 ^ 63) bits then codes "\"-Infinity\"" else codes "\"Infinity\"")
    else out ++ to_chars bits
