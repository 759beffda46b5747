-- ===== src/Base64/Quads.antt =====
-- src/detail/base64.cpp: quads of characters and groups of octets, each from the other.
use zen.Prelude.{All, Bool, IsByte, Option, [], ap, arith, bit_or, false, if_true, if◌then◌else◌}
use zen.Prelude.{length, none, not, refl, some, true, ℕ, ◌%◌, ◌*◌, ◌+◌, ◌/◌, ◌<◌, ◌==◌, ◌^◌, ◌∙◌}
use zen.Prelude.{◌∷◌, ◌≡◌}
use zen.Prelude.Bits.{and_mask15, and_mask3, or_high_low}
use zen.Binary.{Bytes}
use zen.Base64.{base64_encode, decode_entries, decode_quads, is_last, reverse_entry, symbol}
use zen.Base64.{then_push}
use zen.Base64.Symbols.{group_one, group_three, group_two, reverse_entry-symbol, sextet_digit}
use zen.Base64.Symbols.{symbol_not_padding}

first_octet :
    (v0 v1 : ℕ) → v0 < 64 → v1 < 64 → bit_or (v0 * 2 ^ 2) (v1 / 2 ^ 4) % 2 ^ 8 ≡ v0 * 4 + v1 / 16
first_octet v0 v1 h0 h1 = omega (arith, or_high_low 2 v0 (v1 / 2 ^ 4) (omega arith))

second_octet :
    (v1 v2 : ℕ)
    → v1 < 64
    → v2 < 64
    → bit_or (v1 * 2 ^ 4) (v2 / 2 ^ 2) % 2 ^ 8 ≡ v1 % 16 * 16 + v2 / 4
second_octet v1 v2 h1 h2 = omega (arith, or_high_low 4 v1 (v2 / 2 ^ 2) (omega arith))

third_octet : (v2 v3 : ℕ) → v2 < 64 → v3 < 64 → bit_or (v2 * 2 ^ 6) v3 % 2 ^ 8 ≡ v2 % 4 * 64 + v3
third_octet v2 v3 h2 h3 = omega (arith, or_high_low 6 v2 v3 (omega arith))

is_symbol : (v : ℕ) → v < 64 → (v == 0xFF) ≡ false
is_symbol v h = ground arith

pub entries_three :
    (last : Bool) (v0 v1 v2 v3 : ℕ)
    → v0 < 64
    → v1 < 64
    → v2 < 64
    → v3 < 64
    → decode_entries false false last v0 v1 v2 v3
      ≡ some ((v0 * 4 + v1 / 16) ∷ (v1 % 16 * 16 + v2 / 4) ∷ (v2 % 4 * 64 + v3) ∷ [])
unfolding decode_entries
entries_three last v0 v1 v2 v3 h0 h1 h2 h3 =
    rw
      (
        is_symbol v0 h0,
        is_symbol v1 h1,
        is_symbol v2 h2,
        is_symbol v3 h3,
        first_octet v0 v1 h0 h1,
        second_octet v1 v2 h1 h2,
        third_octet v2 v3 h2 h3,
      )
      refl

swapped : (x : Option Bytes) (b : Bool) → (if not b then none else x) ≡ (if b then x else none)
swapped x true = refl
swapped x false = refl

pub entries_two :
    (v0 v1 v2 v3 : ℕ)
    → v0 < 64
    → v1 < 64
    → v2 < 64
    → decode_entries false true true v0 v1 v2 v3
      ≡ (if v2 % 4 == 0 then some ((v0 * 4 + v1 / 16) ∷ (v1 % 16 * 16 + v2 / 4) ∷ []) else none)
unfolding decode_entries
entries_two v0 v1 v2 v3 h0 h1 h2 =
    rw
      (
        is_symbol v0 h0,
        is_symbol v1 h1,
        is_symbol v2 h2,
        and_mask3 v2,
        first_octet v0 v1 h0 h1,
        second_octet v1 v2 h1 h2,
      )
      (swapped _ (v2 % 4 == 0))

pub entries_one :
    (v0 v1 v2 v3 : ℕ)
    → v0 < 64
    → v1 < 64
    → decode_entries true true true v0 v1 v2 v3
      ≡ (if v1 % 16 == 0 then some ((v0 * 4 + v1 / 16) ∷ []) else none)
unfolding decode_entries
entries_one v0 v1 v2 v3 h0 h1 =
    rw (is_symbol v0 h0, is_symbol v1 h1, and_mask15 v1, first_octet v0 v1 h0 h1)
      (swapped _ (v1 % 16 == 0))

-- What is written for three octets, for two and for one.
pub quad_eq :
    {a b c d a' b' c' d' : ℕ} {rest : Bytes}
    → a ≡ a'
    → b ≡ b'
    → c ≡ c'
    → d ≡ d'
    → a ∷ b ∷ c ∷ d ∷ rest ≡ a' ∷ b' ∷ c' ∷ d' ∷ rest
quad_eq ea eb ec ed = cc

pub encode_three :
    (a b c : ℕ) (rest : Bytes)
    → a < 256
    → b < 256
    → c < 256
    → base64_encode (a ∷ b ∷ c ∷ rest)
      ≡ symbol (a / 4)
        ∷ symbol (a % 4 * 16 + b / 16)
        ∷ symbol (b % 16 * 4 + c / 64)
        ∷ symbol (c % 64)
        ∷ base64_encode rest
unfolding base64_encode
encode_three a b c rest ha hb hc =
    let n = bit_or (bit_or (a * 2 ^ 16 % 2 ^ 32) (b * 2 ^ 8 % 2 ^ 32)) c in
    let whole = group_three a b c ha hb hc in
    quad_eq (sextet_digit n 18 (a / 4) (omega (arith, whole)))
      (sextet_digit n 12 (a % 4 * 16 + b / 16) (omega (arith, whole)))
      (sextet_digit n 6 (b % 16 * 4 + c / 64) (omega (arith, whole)))
      (sextet_digit n 0 (c % 64) (omega (arith, whole)))

pub encode_two :
    (a b : ℕ)
    → a < 256
    → b < 256
    → base64_encode (a ∷ b ∷ [])
      ≡ symbol (a / 4) ∷ symbol (a % 4 * 16 + b / 16) ∷ symbol (b % 16 * 4) ∷ b'=' ∷ []
unfolding base64_encode
encode_two a b ha hb =
    let n = bit_or (a * 2 ^ 16 % 2 ^ 32) (b * 2 ^ 8 % 2 ^ 32) in
    let whole = group_two a b ha hb in
    quad_eq {d = b'='} {rest = []} (sextet_digit n 18 (a / 4) (omega (arith, whole)))
      (sextet_digit n 12 (a % 4 * 16 + b / 16) (omega (arith, whole)))
      (sextet_digit n 6 (b % 16 * 4) (omega (arith, whole))) refl

pub encode_one :
    (a : ℕ)
    → a < 256
    → base64_encode (a ∷ []) ≡ symbol (a / 4) ∷ symbol (a % 4 * 16) ∷ b'=' ∷ b'=' ∷ []
unfolding base64_encode
encode_one a ha =
    let n = a * 2 ^ 16 % 2 ^ 32 in
    let whole = group_one a ha in
    quad_eq {c = b'='} {d = b'='} {rest = []} (sextet_digit n 18 (a / 4) (omega (arith, whole)))
      (sextet_digit n 12 (a % 4 * 16) (omega (arith, whole))) refl refl

pub length-base64_encode : (octets : Bytes) → length (base64_encode octets) % 4 ≡ 0
unfolding base64_encode
length-base64_encode [] = refl
length-base64_encode (a ∷ []) = refl
length-base64_encode (a ∷ b ∷ []) = refl
length-base64_encode (a ∷ b ∷ c ∷ rest) = omega (arith, length-base64_encode rest)

no_quads : decode_quads (base64_encode []) ≡ some []
unfolding decode_quads base64_encode
no_quads = refl

zero_kept : {A : Type 0} (n : ℕ) {x : A} (y : A) → n ≡ 0 → (if n == 0 then x else y) ≡ x
zero_kept n y h = if_true (n == 0) y (ground (arith, h))

three_eq :
    {a b c a' b' c' : ℕ} {rest : Bytes}
    → a ≡ a'
    → b ≡ b'
    → c ≡ c'
    → a ∷ b ∷ c ∷ rest ≡ a' ∷ b' ∷ c' ∷ rest
three_eq ea eb ec = cc

two_eq : {a b a' b' : ℕ} {rest : Bytes} → a ≡ a' → b ≡ b' → a ∷ b ∷ rest ≡ a' ∷ b' ∷ rest
two_eq ea eb = cc

pub decode_quads-base64_encode :
    (octets : Bytes) → All IsByte octets → decode_quads (base64_encode octets) ≡ some octets
unfolding decode_quads
decode_quads-base64_encode [] h = no_quads
decode_quads-base64_encode (a ∷ []) h =
    let s0 = a / 4 in
    let s1 = a % 4 * 16 in
    ap decode_quads (encode_one a h.0)
    ∙ rw
        (
          reverse_entry-symbol s0 (omega (arith, h.0)),
          reverse_entry-symbol s1 (omega arith),
          entries_one s0 s1 (reverse_entry b'=') (reverse_entry b'=') (omega (arith, h.0))
              (omega arith),
        )
        (ap (λ (o : Option Bytes). then_push o (some [])) (zero_kept (s1 % 16) none (omega arith))
          ∙ ap (λ (x : ℕ). some (x ∷ [])) (omega arith))
decode_quads-base64_encode (a ∷ b ∷ []) h =
    let s0 = a / 4 in
    let s1 = a % 4 * 16 + b / 16 in
    let s2 = b % 16 * 4 in
    ap decode_quads (encode_two a b h.0 h.1.0)
    ∙ rw
        (
          symbol_not_padding s2 (omega arith),
          reverse_entry-symbol s0 (omega (arith, h.0)),
          reverse_entry-symbol s1 (omega (arith, h.1.0)),
          reverse_entry-symbol s2 (omega arith),
          entries_two s0 s1 s2 (reverse_entry b'=') (omega (arith, h.0)) (omega (arith, h.1.0))
              (omega arith),
        )
        (ap (λ (o : Option Bytes). then_push o (some [])) (zero_kept (s2 % 4) none (omega arith))
          ∙ ap some (two_eq (omega (arith, h.0)) (omega (arith, h.1.0))))
decode_quads-base64_encode (a ∷ b ∷ c ∷ rest) h =
    let s0 = a / 4 in
    let s1 = a % 4 * 16 + b / 16 in
    let s2 = b % 16 * 4 + c / 64 in
    let s3 = c % 64 in
    ap decode_quads (encode_three a b c rest h.0 h.1.0 h.1.1.0)
    ∙ rw
        (
          symbol_not_padding s2 (omega (arith, h.1.1.0)),
          symbol_not_padding s3 (omega arith),
          reverse_entry-symbol s0 (omega (arith, h.0)),
          reverse_entry-symbol s1 (omega (arith, h.1.0)),
          reverse_entry-symbol s2 (omega (arith, h.1.1.0)),
          reverse_entry-symbol s3 (omega arith),
          entries_three (is_last (base64_encode rest)) s0 s1 s2 s3 (omega (arith, h.0))
              (omega (arith, h.1.0)) (omega (arith, h.1.1.0)) (omega arith),
          decode_quads-base64_encode rest h.1.1.1,
        )
        (ap some (three_eq (omega (arith, h.0)) (omega (arith, h.1.0)) (omega (arith, h.1.1.0))))
