-- ===== src/Json/Yields.antt =====
-- src/detail/json.cpp: what a parser gives, and that it does not run out of fuel: the parsers of
-- strings, numbers and literals.
use zen.Prelude.{Bool, Bool-cases, Option, [], arith, bytes_eq, codes, drop, false, if◌then◌else◌}
use zen.Prelude.{inl, inr, leb, length, length-drop, ltb, none, not, refl, some, subst, suc, take}
use zen.Prelude.{true, zero, ℕ, ◌&&◌, ◌++◌, ◌+◌, ◌<◌, ◌==◌, ◌||◌, ◌∷◌, ◌≡◌, ◌≢◌, ◌≤◌}
use zen.Binary.{Bytes}
use zen.Json.{Parsed, advance, failed, is_space, no_fuel, parsed, peek, skip_ws, then_parse}
use zen.Json.Text.{encode_utf8, hex_loop, parse_escape, parse_hex4, parse_low_surrogate}
use zen.Json.Text.{parse_string, parse_string_loop, parse_unicode, plain_escape}
use zen.Json.Number.{at_char, at_digit, exponent_part, fraction_part, integer_part, is_digit}
use zen.Json.Number.{match_literal, skip_digits, skip_sign}

-- Not out of fuel, and what is parsed has the property and leaves at most `n` characters.
pub data Yields {A : Type 0} (P : A → Type 0) (n : ℕ) : Parsed A → Type 0 where
  gives : {a : A} {r : Bytes} → P a → length r ≤ n → Yields P n (parsed a r)
  fails : {why : Bytes} → Yields P n (failed why)

abbrev pub Anything : {A : Type 0} → A → Type 0
Anything a = Unit

pub Yields-then_parse :
    {A B : Type 0} {P : A → Type 0} {Q : B → Type 0} {n m : ℕ} {o : Parsed A}
    {next : A → Bytes → Parsed B}
    → Yields P n o
    → ((a : A) (r : Bytes) → P a → length r ≤ n → Yields Q m (next a r))
    → Yields Q m (then_parse o next)
Yields-then_parse (gives {a} {r} p short) k = k a r p short
Yields-then_parse fails k = fails

pub Yields-within :
    {A : Type 0} {P : A → Type 0} {n m : ℕ} {o : Parsed A} → n ≤ m → Yields P n o → Yields P m o
Yields-within le (gives p short) = gives p (omega (arith, le, short))
Yields-within le fails = fails

pub fuelled : {A : Type 0} {P : A → Type 0} {n : ℕ} {o : Parsed A} → Yields P n o → o ≢ no_fuel
fuelled (gives p short) e = cc
fuelled fails e = cc

parsed_injective : {A : Type 0} {a b : A} {r s : Bytes} → parsed a r ≡ parsed b s → a ≡ b
parsed_injective e = cc

pub given :
    {A : Type 0} {P : A → Type 0} {n : ℕ} {o : Parsed A} {a : A} {r : Bytes}
    → Yields P n o
    → o ≡ parsed a r
    → P a
given {P = P} (gives p short) e = subst P (parsed_injective e) p
given fails e = cc

pub Yields-if :
    {A : Type 0} {P : A → Type 0} {n : ℕ} (b : Bool) {o o' : Parsed A}
    → (b ≡ true → Yields P n o)
    → (b ≡ false → Yields P n o')
    → Yields P n (if b then o else o')
Yields-if true h h' = h refl
Yields-if false h h' = h' refl

pub skip_ws-length : (r : Bytes) → length (skip_ws r) ≤ length r
unfolding skip_ws
skip_ws-length [] = omega arith
skip_ws-length (c ∷ r) = elim (Bool-cases (is_space c)) [
  | inl space ↦ rw space (omega (arith, skip_ws-length r))
  | inr other ↦ rw other (omega arith)
]

pub advance-length : (r : Bytes) → length (advance r) ≤ length r
advance-length [] = omega arith
advance-length (c ∷ r) = omega arith

-- Over a character that is there, by one less.
pub advance_past :
    (r : Bytes) (c : ℕ) → (peek r == suc c) ≡ true → length (advance r) + 1 ≤ length r
advance_past [] c e = absurd (ground (arith, e))
advance_past (a ∷ r) c e = omega arith

drop-shorter : (k : ℕ) (r : Bytes) → length (drop k r) ≤ length r
drop-shorter k r = omega (arith, length-drop k r)

parse_hex4-Yields : (r : Bytes) → Yields Anything (length r) (parse_hex4 r)
unfolding parse_hex4
parse_hex4-Yields r =
    Yields-if (ltb (length r) 4) (λ e. fails) (λ e. digits (hex_loop (take 4 r) 0))
  where
    digits :
        (o : Option ℕ)
        → Yields Anything
            (length r)
            (elim o [ none ↦ failed (codes "invalid \\u escape") | some cp ↦ parsed cp (drop 4 r) ])
    digits none = fails
    digits (some cp) = gives tt (drop-shorter 4 r)

parse_low_surrogate-Yields :
    (cp : ℕ) (r : Bytes) → Yields Anything (length r) (parse_low_surrogate cp r)
unfolding parse_low_surrogate
parse_low_surrogate-Yields cp r =
    Yields-if (ltb (length r) 2 || not (peek r == b'\\') || not (peek (advance r) == b'u'))
      (λ e. fails)
      λ e. Yields-then_parse (parse_hex4-Yields (drop 2 r)) λ lo r' p short.
        Yields-if (ltb lo 0xDC00 || ltb 0xDFFF lo) (λ e'. fails)
          (λ e'. gives tt (omega (arith, short, drop-shorter 2 r)))

parse_unicode-Yields : (r : Bytes) → Yields Anything (length r) (parse_unicode r)
unfolding parse_unicode
parse_unicode-Yields r = Yields-then_parse (parse_hex4-Yields r) λ cp r' p short.
    Yields-if (leb 0xD800 cp && leb cp 0xDBFF)
      (λ e. Yields-within short (parse_low_surrogate-Yields cp r'))
      (λ e. Yields-if (leb 0xDC00 cp && leb cp 0xDFFF) (λ e'. fails) (λ e'. gives tt short))

parse_escape-Yields : (r out : Bytes) → Yields Anything (length r) (parse_escape r out)
unfolding parse_escape
parse_escape-Yields [] out = fails
parse_escape-Yields (e ∷ r) out = by_kind (plain_escape e)
  where
    by_kind :
        (o : Option ℕ)
        → Yields Anything (length (e ∷ r)) (elim o [
          | some c ↦ parsed (out ++ c ∷ []) r
          | none ↦
              if e == b'u'
              then then_parse (parse_unicode r) (λ cp r'. parsed (encode_utf8 cp out) r')
              else failed (codes "invalid escape")
        ])
    by_kind (some c) = gives tt (omega arith)
    by_kind none =
        Yields-if (e == b'u')
          (λ u.
            Yields-then_parse (parse_unicode-Yields r)
              λ cp r' p short. gives tt (omega (arith, short)))
          (λ u. fails)

parse_string_loop-Yields :
    (fuel : ℕ) (r out : Bytes)
    → length r < fuel
    → Yields Anything (length r) (parse_string_loop fuel r out)
unfolding parse_string_loop
parse_string_loop-Yields zero r out h = absurd (omega arith)
parse_string_loop-Yields (suc fuel) [] out h = fails
parse_string_loop-Yields (suc fuel) (c ∷ r) out h =
    quoted (c == b'"') (c == b'\\')
      λ r' out' short. parse_string_loop-Yields fuel r' out' (omega (arith, short, h))
  where
    quoted :
        (q s : Bool)
        → ((r' out' : Bytes)
            → length r' ≤ length r
            → Yields Anything (length r') (parse_string_loop fuel r' out'))
        → Yields Anything (suc (length r)) (elim q [
          | true ↦ parsed out r
          | false ↦ elim s [
            | true ↦ then_parse (parse_escape r out) λ out' r'. parse_string_loop fuel r' out'
            | false ↦
                if ltb c 0x20
                then failed (codes "control character in string")
                else parse_string_loop fuel r (out ++ c ∷ [])
          ]
        ])
    quoted true s again = gives tt (omega arith)
    quoted false true again =
        Yields-then_parse (parse_escape-Yields r out)
          λ out' r' p short. Yields-within (omega (arith, short)) (again r' out' short)
    quoted false false again =
        Yields-if (ltb c 0x20) (λ e. fails)
          λ e. Yields-within (omega arith) (again r (out ++ c ∷ []) (omega arith))

pub parse_string-Yields : (r : Bytes) → Yields Anything (length r) (parse_string r)
unfolding parse_string
parse_string-Yields r =
    Yields-within (advance-length r)
      (parse_string_loop-Yields (length r + 1) (advance r) [] (omega (arith, advance-length r)))

skip_digits-length : (r : Bytes) → length (skip_digits r) ≤ length r
unfolding skip_digits
skip_digits-length [] = omega arith
skip_digits-length (c ∷ r) = elim (Bool-cases (is_digit c)) [
  | inl digit ↦ rw digit (omega (arith, skip_digits-length r))
  | inr other ↦ rw other (omega arith)
]

pub integer_part-Yields : (r : Bytes) → Yields Anything (length r) (integer_part r)
unfolding integer_part
integer_part-Yields [] = fails
integer_part-Yields (c ∷ r) =
    Yields-if (c == b'0') (λ e. gives tt (omega arith))
      λ e. Yields-if (is_digit c) (λ e'. gives tt (skip_digits-length (c ∷ r))) (λ e'. fails)

pub fraction_part-Yields : (r : Bytes) → Yields Anything (length r) (fraction_part r)
unfolding fraction_part
fraction_part-Yields r =
    Yields-if (at_char r b'.')
      (λ e.
        Yields-if (not (at_digit (advance r))) (λ e'. fails)
          (λ e'. gives tt (omega (arith, skip_digits-length (advance r), advance-length r))))
      (λ e. gives tt (omega arith))

pub sign-length : (b : Bool) (r : Bytes) → length (if b then advance r else r) ≤ length r
sign-length true r = advance-length r
sign-length false r = omega arith

pub exponent_part-Yields : (r : Bytes) → Yields Anything (length r) (exponent_part r)
unfolding exponent_part
exponent_part-Yields r =
    let r' = skip_sign (advance r) in
    Yields-if (at_char r b'e' || at_char r b'E')
      (λ e.
        Yields-if (not (at_digit r')) (λ e'. fails)
          (λ e'.
            gives tt
              (omega (arith, skip_digits-length r', sign-length _ (advance r), advance-length r))))
      (λ e. gives tt (omega arith))

pub match_literal-Yields : (lit r : Bytes) → Yields Anything (length r) (match_literal lit r)
unfolding match_literal
match_literal-Yields lit r =
    Yields-if (not (bytes_eq (take (length lit) r) lit)) (λ e. fails)
      (λ e. gives tt (drop-shorter (length lit) r))
