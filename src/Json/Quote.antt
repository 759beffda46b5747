-- ===== src/Json/Quote.antt =====
-- src/detail/json.cpp: the reader of strings takes back what `json_quote` writes.
use zen.Prelude.{==_iff, Bool, Bool-cases, Option, [], ap, append-nil, append_assoc, arith}
use zen.Prelude.{bit_and, false, if_true, inl, inr, leb, length, length-append, ltb, ltb→lt, none}
use zen.Prelude.{refl, some, subst, suc, sym, true, zero, ℕ, ◌%◌, ◌++◌, ◌+◌, ◌/◌, ◌<◌, ◌==◌, ◌^◌}
use zen.Prelude.{◌∙◌, ◌∷◌, ◌≡◌, ◌≤◌}
use zen.Prelude.Tables.{every_below, every_below-holds}
use zen.Binary.{Bytes}
use zen.Json.{parsed}
use zen.Json.Text.{encode_utf8, hex_loop, json_quote, lower_hex, parse_escape, parse_hex4}
use zen.Json.Text.{parse_string, parse_string_loop, parse_unicode, quote_char, quote_loop}

-- One character of a string, quoted and read.
abbrev ComesBack : ℕ → Type 0
ComesBack c =
    (fuel : ℕ) (r out : Bytes)
    → parse_string_loop (suc fuel) (quote_char c ++ r) out
      ≡ parse_string_loop fuel r (out ++ c ∷ [])

double_quote : ComesBack b'"'
unfolding parse_string_loop quote_char
double_quote fuel r out = refl

backslash : ComesBack b'\\'
unfolding parse_string_loop quote_char
backslash fuel r out = refl

backspace : ComesBack 0x08
unfolding parse_string_loop quote_char
backspace fuel r out = refl

form_feed : ComesBack 0x0C
unfolding parse_string_loop quote_char
form_feed fuel r out = refl

line_feed : ComesBack 0x0A
unfolding parse_string_loop quote_char
line_feed fuel r out = refl

carriage_return : ComesBack 0x0D
unfolding parse_string_loop quote_char
carriage_return fuel r out = refl

tabulator : ComesBack 0x09
unfolding parse_string_loop quote_char
tabulator fuel r out = refl

-- The digits of `\u00hl` are those of a control character.
is_found : Option ℕ → ℕ → Bool
is_found none c = false
is_found (some v) c = v == c

is_found→eq : (o : Option ℕ) (c : ℕ) → is_found o c ≡ true → o ≡ some c
unfolding is_found
is_found→eq none c h = cc
is_found→eq (some v) c h = ap some ((==_iff v c).0 h)

abbrev hex_of : ℕ → Bytes
hex_of c = b'0' ∷ b'0' ∷ lower_hex (bit_and (c / 2 ^ 4) 0xF) ∷ lower_hex (bit_and c 0xF) ∷ []

hex_table : every_below 0x20 (λ c. is_found (hex_loop (hex_of c) 0) c) ≡ true
unfolding every_below is_found hex_loop
hex_table = refl

parse_hex4-hex_of : (c : ℕ) (r : Bytes) → c < 0x20 → parse_hex4 (hex_of c ++ r) ≡ parsed c r
unfolding parse_hex4
parse_hex4-hex_of c r h =
    rw (long_enough, is_found→eq (hex_loop (hex_of c) 0) c (every_below-holds 0x20 _ c hex_table h))
      refl
  where
    long_enough : ltb (length (hex_of c ++ r)) 4 ≡ false
    long_enough = ground arith

parse_unicode-hex_of : (c : ℕ) (r : Bytes) → c < 0x20 → parse_unicode (hex_of c ++ r) ≡ parsed c r
unfolding parse_unicode
parse_unicode-hex_of c r h = rw (parse_hex4-hex_of c r h, not_high, not_low) refl
  where
    not_high : leb 0xD800 c ≡ false
    not_high = ground arith

    not_low : leb 0xDC00 c ≡ false
    not_low = ground arith

encode_utf8-ascii : (c : ℕ) (out : Bytes) → c < 0x20 → encode_utf8 c out ≡ out ++ c ∷ []
unfolding encode_utf8
encode_utf8-ascii c out h =
    if_true (leb c 0x7F) _ (ground arith)
    ∙ ap (λ (k : ℕ). out ++ k ∷ []) {x = c % 256} (omega arith)

control_escape :
    (c : ℕ) (r out : Bytes)
    → c < 0x20
    → parse_escape (b'u' ∷ hex_of c ++ r) out ≡ parsed (out ++ c ∷ []) r
unfolding parse_escape
control_escape c r out h = rw (parse_unicode-hex_of c r h, encode_utf8-ascii c out h) refl

-- Control characters without an escape of their own.
control_char : (c : ℕ) → c < 0x20 → quote_char c ≡ b'\\' ∷ b'u' ∷ hex_of c → ComesBack c
unfolding parse_string_loop
control_char c h e fuel r out =
    ap (λ (l : Bytes). parse_string_loop (suc fuel) (l ++ r) out) e
    ∙ rw (control_escape c r out h) refl

plain_char :
    (c : ℕ)
    → (c == b'"') ≡ false
    → (c == b'\\') ≡ false
    → ltb c 0x20 ≡ false
    → quote_char c ≡ c ∷ []
    → ComesBack c
unfolding parse_string_loop
plain_char c no_quote no_slash printable e fuel r out =
    ap (λ (l : Bytes). parse_string_loop (suc fuel) (l ++ r) out) e
    ∙ rw (no_quote, no_slash, printable, parse_string_loop) refl

at_code : (c k : ℕ) → ComesBack k → (c == k) ≡ true → ComesBack c
at_code c k back e = subst ComesBack (sym ((==_iff c k).0 e)) back

comes_back : (c : ℕ) → ComesBack c
unfolding quote_char
comes_back c = elim (Bool-cases (c == b'"')) [
  | inl e ↦ at_code c b'"' double_quote e
  | inr e1 ↦ elim (Bool-cases (c == b'\\')) [
    | inl e ↦ at_code c b'\\' backslash e
    | inr e2 ↦ elim (Bool-cases (c == 0x08)) [
      | inl e ↦ at_code c 0x08 backspace e
      | inr e3 ↦ elim (Bool-cases (c == 0x0C)) [
        | inl e ↦ at_code c 0x0C form_feed e
        | inr e4 ↦ elim (Bool-cases (c == 0x0A)) [
          | inl e ↦ at_code c 0x0A line_feed e
          | inr e5 ↦ elim (Bool-cases (c == 0x0D)) [
            | inl e ↦ at_code c 0x0D carriage_return e
            | inr e6 ↦ elim (Bool-cases (c == 0x09)) [
              | inl e ↦ at_code c 0x09 tabulator e
              | inr e7 ↦ elim (Bool-cases (ltb c 0x20)) [
                | inl low ↦
                    control_char c (ltb→lt c 0x20 low) (rw (e1, e2, e3, e4, e5, e6, e7, low) refl)
                | inr high ↦ plain_char c e1 e2 high (rw (e1, e2, e3, e4, e5, e6, e7, high) refl)
              ]
            ]
          ]
        ]
      ]
    ]
  ]
]

-- A fuel that covers the quoted text is enough.
quote_char-length : (c : ℕ) → 1 ≤ length (quote_char c)
unfolding quote_char
quote_char-length c = ground arith

closing_quote :
    (fuel : ℕ) (rest out : Bytes) → parse_string_loop (suc fuel) (b'"' ∷ rest) out ≡ parsed out rest
unfolding parse_string_loop
closing_quote fuel rest out = refl

parse_string_loop-quote_loop :
    (s rest out : Bytes) (fuel : ℕ)
    → length s < fuel
    → parse_string_loop fuel (quote_loop s ++ (b'"' ∷ rest)) out ≡ parsed (out ++ s) rest
unfolding quote_loop
parse_string_loop-quote_loop s rest out zero h = absurd (omega arith)
parse_string_loop-quote_loop [] rest out (suc fuel) h =
    closing_quote fuel rest out ∙ ap (λ (l : Bytes). parsed l rest) (sym (append-nil out))
parse_string_loop-quote_loop (c ∷ s) rest out (suc fuel) h =
    ap (λ (l : Bytes). parse_string_loop (suc fuel) l out)
      (append_assoc (quote_char c) (quote_loop s) (b'"' ∷ rest))
    ∙ comes_back c fuel (quote_loop s ++ (b'"' ∷ rest)) out
    ∙ parse_string_loop-quote_loop s rest (out ++ c ∷ []) fuel (omega arith)
    ∙ ap (λ (l : Bytes). parsed l rest) (append_assoc out (c ∷ []) s)

quote_loop-length : (s : Bytes) → length s ≤ length (quote_loop s)
unfolding quote_loop
quote_loop-length [] = omega arith
quote_loop-length (c ∷ s) =
    omega
      (arith, length-append (quote_char c) (quote_loop s), quote_char-length c, quote_loop-length s)

-- Whatever the octets of a string, what `json_quote` writes for it is read back as that string,
-- and the reader stops right behind the closing quote.
pub parse_string-json_quote :
    (s rest : Bytes) → parse_string (json_quote s [] ++ rest) ≡ parsed s rest
unfolding parse_string json_quote
parse_string-json_quote s rest =
    ap (λ (l : Bytes). parse_string_loop (length (json_quote s [] ++ rest) + 1) l [])
      (append_assoc (quote_loop s) (b'"' ∷ []) rest)
    ∙ parse_string_loop-quote_loop s rest [] _ enough
  where
    enough : length s < length (json_quote s [] ++ rest) + 1
    enough = omega (
      arith,
      quote_loop-length s,
      length-append (json_quote s []) rest,
      length-append (quote_loop s) (b'"' ∷ []),
    )
