-- ===== src/Json/Number.antt =====
-- src/detail/json.cpp: number tokens and literals.
use zen.Prelude.{Bool, [], bytes_eq, codes, drop, false, if◌then◌else◌, leb, length, not, take}
use zen.Prelude.{true, ℕ, ◌&&◌, ◌-◌, ◌==◌, ◌||◌, ◌∷◌}
use zen.Binary.{Bytes}
use zen.Json.{JsonValue, Parsed, advance, bool_node, failed, null_node, number_node, parsed, peek}
use zen.Json.{then_parse}

unfoldable pub is_digit : ℕ → Bool
is_digit c = leb b'0' c && leb c b'9'

-- `i_ < n_ && s_[i_] >= '0' && s_[i_] <= '9'`.
abbrev pub at_digit : Bytes → Bool
at_digit [] = false
at_digit (c ∷ r) = is_digit c

-- `i_ < n_ && s_[i_] == c`.
abbrev pub at_char : Bytes → ℕ → Bool
at_char [] c = false
at_char (a ∷ r) c = a == c

unfoldable pub skip_digits : Bytes → Bytes
unfolding is_digit
skip_digits [] = []
skip_digits (c ∷ r) = if is_digit c then skip_digits r else c ∷ r

-- The three parts of a number token, each with what is left behind it.
unfoldable pub integer_part : Bytes → Parsed Unit
unfolding is_digit skip_digits
integer_part [] = failed (codes "malformed number")
integer_part (c ∷ r) =
    if c == b'0'
    then parsed tt r
    else if is_digit c
    then parsed tt (skip_digits (c ∷ r))
    else failed (codes "malformed number")

unfoldable pub fraction_part : Bytes → Parsed Unit
unfolding is_digit skip_digits
fraction_part r =
    if at_char r b'.'
    then if not (at_digit (advance r))
      then failed (codes "malformed fraction")
      else parsed tt (skip_digits (advance r))
    else parsed tt r

-- A sign in front of the exponent is skipped.
abbrev pub skip_sign : Bytes → Bytes
skip_sign r = if at_char r b'+' || at_char r b'-' then advance r else r

unfoldable pub exponent_part : Bytes → Parsed Unit
unfolding is_digit skip_digits
exponent_part r =
    if at_char r b'e' || at_char r b'E'
    then if not (at_digit (skip_sign (advance r)))
      then failed (codes "malformed exponent")
      else parsed tt (skip_digits (skip_sign (advance r)))
    else parsed tt r

-- The raw token is `s_.substr(start, i_ - start)`.
unfoldable pub parse_number : Bytes → Parsed JsonValue
unfolding integer_part fraction_part exponent_part
parse_number r = then_parse (integer_part (if peek r == b'-' then advance r else r)) λ u r₁.
    then_parse (fraction_part r₁) λ u' r₂.
      then_parse (exponent_part r₂)
        λ u'' r₃. parsed (number_node (take (length r - length r₃) r)) r₃

unfoldable pub match_literal : Bytes → Bytes → Parsed Unit
match_literal lit r =
    if not (bytes_eq (take (length lit) r) lit)
    then failed (codes "invalid literal")
    else parsed tt (drop (length lit) r)

unfoldable pub parse_bool : Bytes → Parsed JsonValue
unfolding match_literal
parse_bool r =
    if peek r == b't'
    then then_parse (match_literal (codes "true") r) (λ u r'. parsed (bool_node true) r')
    else then_parse (match_literal (codes "false") r) (λ u r'. parsed (bool_node false) r')

unfoldable pub parse_null : Bytes → Parsed JsonValue
unfolding match_literal
parse_null r = then_parse (match_literal (codes "null") r) λ u r'. parsed null_node r'
