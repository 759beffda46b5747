-- ===== src/Json/Text.antt =====
-- src/detail/json.cpp: strings, their escapes and the UTF-8 of an escaped code point.
use zen.Prelude.{Bool, Option, [], bit_and, bit_or, codes, drop, false, if◌then◌else◌, leb}
use zen.Prelude.{length, ltb, none, not, some, suc, take, true, zero, ℕ, ◌%◌, ◌&&◌, ◌*◌, ◌++◌}
use zen.Prelude.{◌+◌, ◌-◌, ◌/◌, ◌==◌, ◌^◌, ◌||◌, ◌∷◌}
use zen.Binary.{Bytes}
use zen.Json.{Parsed, advance, failed, no_fuel, parsed, peek, then_parse}

unfoldable pub encode_utf8 : ℕ → Bytes → Bytes
encode_utf8 cp out =
    if leb cp 0x7F
    then out ++ (cp % 256) ∷ []
    else if leb cp 0x7FF
    then out ++ (bit_or 0xC0 (cp / 2 ^ 6) % 256) ∷ (bit_or 0x80 (bit_and cp 0x3F) % 256) ∷ []
    else if leb cp 0xFFFF
    then out
      ++ (bit_or 0xE0 (cp / 2 ^ 12) % 256)
        ∷ (bit_or 0x80 (bit_and (cp / 2 ^ 6) 0x3F) % 256)
        ∷ (bit_or 0x80 (bit_and cp 0x3F) % 256)
        ∷ []
    else out
      ++ (bit_or 0xF0 (cp / 2 ^ 18) % 256)
        ∷ (bit_or 0x80 (bit_and (cp / 2 ^ 12) 0x3F) % 256)
        ∷ (bit_or 0x80 (bit_and (cp / 2 ^ 6) 0x3F) % 256)
        ∷ (bit_or 0x80 (bit_and cp 0x3F) % 256)
        ∷ []

abbrev between : ℕ → ℕ → ℕ → Bool
between low c high = leb low c && leb c high

unfoldable pub hex_value : ℕ → Option ℕ
hex_value c =
    if between b'0' c b'9'
    then some (c - b'0')
    else if between b'a' c b'f'
    then some (c - b'a' + 10)
    else if between b'A' c b'F'
    then some (c - b'A' + 10)
    else none

-- The loop of `parse_hex4` over the digits, with the code point so far.
unfoldable pub hex_loop : Bytes → ℕ → Option ℕ
unfolding hex_value
hex_loop [] cp = some cp
hex_loop (c ∷ digits) cp = elim (hex_value c) [
  | none ↦ none
  | some d ↦ hex_loop digits (bit_or (cp * 2 ^ 4 % 2 ^ 32) d)
]

unfoldable pub parse_hex4 : Bytes → Parsed ℕ
unfolding hex_loop
parse_hex4 r =
    if ltb (length r) 4
    then failed (codes "truncated \\u escape")
    else elim (hex_loop (take 4 r) 0) [
      | none ↦ failed (codes "invalid \\u escape")
      | some cp ↦ parsed cp (drop 4 r)
    ]

-- The low half behind a high surrogate `cp`.
unfoldable pub parse_low_surrogate : ℕ → Bytes → Parsed ℕ
unfolding parse_hex4
parse_low_surrogate cp r =
    if ltb (length r) 2 || not (peek r == b'\\') || not (peek (advance r) == b'u')
    then failed (codes "unpaired high surrogate")
    else then_parse (parse_hex4 (drop 2 r)) λ lo r'.
      if ltb lo 0xDC00 || ltb 0xDFFF lo
      then failed (codes "invalid low surrogate")
      else parsed ((0x10000 + (cp - 0xD800) * 2 ^ 10 + (lo - 0xDC00)) % 2 ^ 32) r'

-- The case `u` of the escapes: the code point.
unfoldable pub parse_unicode : Bytes → Parsed ℕ
unfolding parse_hex4 parse_low_surrogate
parse_unicode r = then_parse (parse_hex4 r) λ cp r'.
    if between 0xD800 cp 0xDBFF
    then parse_low_surrogate cp r'
    else if between 0xDC00 cp 0xDFFF
    then failed (codes "unexpected low surrogate")
    else parsed cp r'

-- The escapes of one character.
unfoldable pub plain_escape : ℕ → Option ℕ
plain_escape e =
    if e == b'"'
    then some b'"'
    else if e == b'\\'
    then some b'\\'
    else if e == b'/'
    then some b'/'
    else if e == b'b'
    then some 0x08
    else if e == b'f'
    then some 0x0C
    else if e == b'n'
    then some 0x0A
    else if e == b'r'
    then some 0x0D
    else if e == b't'
    then some 0x09
    else none

-- An escape, from the character behind its backslash on, and what it appends to the string.
unfoldable pub parse_escape : Bytes → Bytes → Parsed Bytes
unfolding plain_escape parse_unicode encode_utf8
parse_escape [] out = failed (codes "unterminated escape")
parse_escape (e ∷ r) out = elim (plain_escape e) [
  | some c ↦ parsed (out ++ c ∷ []) r
  | none ↦
      if e == b'u'
      then then_parse (parse_unicode r) (λ cp r'. parsed (encode_utf8 cp out) r')
      else failed (codes "invalid escape")
]

-- The loop of `parse_string` behind the opening quote, on fuel.
unfoldable pub parse_string_loop : ℕ → Bytes → Bytes → Parsed Bytes
unfolding parse_escape
parse_string_loop zero r out = no_fuel
parse_string_loop (suc fuel) [] out = failed (codes "unterminated string")
parse_string_loop (suc fuel) (c ∷ r) out = elim (c == b'"') [
  | true ↦ parsed out r
  | false ↦ elim (c == b'\\') [
    | true ↦ then_parse (parse_escape r out) λ out' r'. parse_string_loop fuel r' out'
    | false ↦
        if ltb c 0x20
        then failed (codes "control character in string")
        else parse_string_loop fuel r (out ++ c ∷ [])
  ]
]

-- One round more than there are characters is enough.
unfoldable pub parse_string : Bytes → Parsed Bytes
unfolding parse_string_loop
parse_string r = parse_string_loop (length r + 1) (advance r) []

-- `kHex`.
abbrev pub lower_hex : ℕ → ℕ
lower_hex d = if ltb d 10 then b'0' + d else b'a' + (d - 10)

-- What `json_quote` appends for one character.
unfoldable pub quote_char : ℕ → Bytes
quote_char c =
    if c == b'"'
    then codes "\\\""
    else if c == b'\\'
    then codes "\\\\"
    else if c == 0x08
    then codes "\\b"
    else if c == 0x0C
    then codes "\\f"
    else if c == 0x0A
    then codes "\\n"
    else if c == 0x0D
    then codes "\\r"
    else if c == 0x09
    then codes "\\t"
    else if ltb c 0x20
    then codes "\\u00" ++ lower_hex (bit_and (c / 2 ^ 4) 0xF) ∷ lower_hex (bit_and c 0xF) ∷ []
    else c ∷ []

unfoldable pub quote_loop : Bytes → Bytes
unfolding quote_char
quote_loop [] = []
quote_loop (c ∷ s) = quote_char c ++ quote_loop s

unfoldable pub json_quote : Bytes → Bytes → Bytes
unfolding quote_loop
json_quote s out = out ++ (b'"' ∷ quote_loop s ++ b'"' ∷ [])
