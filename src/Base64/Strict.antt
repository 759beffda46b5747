-- ===== src/Base64/Strict.antt =====
-- src/detail/base64.cpp: the decoder accepts what the encoder writes, and nothing else.
use zen.Prelude.{==_iff, All, Bool, Bool-cases, IsByte, Option, [], ap, arith, false}
use zen.Prelude.{if◌then◌else◌, inl, inr, length, none, refl, some, some_injective, subst, sym}
use zen.Prelude.{true, ℕ, ◌%◌, ◌*◌, ◌++◌, ◌+◌, ◌/◌, ◌<◌, ◌==◌, ◌↔◌, ◌∙◌, ◌∷◌, ◌≡◌, ◌≢◌, ◌⊎◌}
use zen.Binary.{Bytes}
use zen.Base64.{base64_decode, base64_encode, decode_entries, decode_quads, is_last}
use zen.Base64.{reverse_entry, symbol, then_push}
use zen.Base64.Symbols.{reverse_entry_cases}
use zen.Base64.Quads.{decode_quads-base64_encode, encode_one, encode_three, encode_two}
use zen.Base64.Quads.{entries_one, entries_three, entries_two, length-base64_encode, quad_eq}

entries_eq :
    {p2 p3 last q2 q3 end_here : Bool} (v0 v1 v2 v3 : ℕ)
    → p2 ≡ q2
    → p3 ≡ q3
    → last ≡ end_here
    → decode_entries p2 p3 last v0 v1 v2 v3 ≡ decode_entries q2 q3 end_here v0 v1 v2 v3
entries_eq v0 v1 v2 v3 e2 e3 e = cc

entries_inv :
    (pad2 pad3 last : Bool) (v0 v1 v2 v3 : ℕ) {d : Bytes}
    → decode_entries pad2 pad3 last v0 v1 v2 v3 ≡ some d
    → (v0 ≢ 0xFF)
      × (v1 ≢ 0xFF)
      × (((pad2 ≡ true) × (pad3 ≡ true) × (last ≡ true))
          ⊎ ((pad2 ≡ false) × (pad3 ≡ true) × (last ≡ true) × (v2 ≢ 0xFF))
          ⊎ ((pad2 ≡ false) × (pad3 ≡ false) × (v2 ≢ 0xFF) × (v3 ≢ 0xFF)))
unfolding decode_entries
entries_inv pad2 pad3 last v0 v1 v2 v3 h = ground (arith, h)

is_entry :
    (c : ℕ)
    → c < 256
    → reverse_entry c ≢ 0xFF
    → (reverse_entry c < 64) × (symbol (reverse_entry c) ≡ c)
is_entry c h ne = elim (reverse_entry_cases c h) [
  | inl illegal ↦ absurd (ne illegal)
  | inr found ↦ found
]

if_some : (n : ℕ) {x d : Bytes} → (if n == 0 then some x else none) ≡ some d → (n ≡ 0) × (x ≡ d)
if_some n h = ground (arith, h)

last_quad :
    (rest more : Bytes)
    → is_last rest ≡ true
    → decode_quads rest ≡ some more
    → (rest ≡ []) × (more ≡ [])
unfolding decode_quads
last_quad [] more h e = (refl, sym (some_injective e))
last_quad (c ∷ rest) more h e = cc

quad_encoded :
    (c0 c1 c2 c3 : ℕ) (rest more d : Bytes)
    → c0 < 256
    → c1 < 256
    → c2 < 256
    → c3 < 256
    → decode_entries
        (c2 == b'=')
        (c3 == b'=')
        (is_last rest)
        (reverse_entry c0)
        (reverse_entry c1)
        (reverse_entry c2)
        (reverse_entry c3)
      ≡ some d
    → decode_quads rest ≡ some more
    → All IsByte more
    → rest ≡ base64_encode more
    → All IsByte (d ++ more) × (c0 ∷ c1 ∷ c2 ∷ c3 ∷ rest ≡ base64_encode (d ++ more))
quad_encoded c0 c1 c2 c3 rest more d h0 h1 h2 h3 e more_e more_h rest_e =
    let v0 = reverse_entry c0 in
    let v1 = reverse_entry c1 in
    let v2 = reverse_entry c2 in
    let v3 = reverse_entry c3 in
    let (ne0, ne1, shape) = entries_inv _ _ _ v0 v1 v2 v3 e in
    let (l0, s0) = is_entry c0 h0 ne0 in
    let (l1, s1) = is_entry c1 h1 ne1 in
    elim shape [
      | inl (p2, p3, p) ↦
          let (rest_nil, more_nil) = last_quad rest more p more_e in
          let a = v0 * 4 + v1 / 16 in
          let (clear, pushed) =
            if_some (v1 % 16)
              (sym (entries_one v0 v1 v2 v3 l0 l1) ∙ sym (entries_eq v0 v1 v2 v3 p2 p3 p) ∙ e) in
          let whole : a ∷ [] ≡ d ++ more =
            ap (λ (l : Bytes). l ++ []) pushed ∙ ap (λ (l : Bytes). d ++ l) (sym more_nil) in
          let octet : a < 256 = omega arith in
          subst (λ l. All IsByte l × (c0 ∷ c1 ∷ c2 ∷ c3 ∷ rest ≡ base64_encode l)) whole
            (
              (octet, tt),
              sym (
                  encode_one a octet
                  ∙ quad_eq (ap symbol (omega arith) ∙ s0) (ap symbol (omega (arith, clear)) ∙ s1)
                      (sym ((==_iff c2 b'=').0 p2)) (sym ((==_iff c3 b'=').0 p3))
                  ∙ ap (λ (l : Bytes). c0 ∷ c1 ∷ c2 ∷ c3 ∷ l) (sym rest_nil)),
            )
      | inr (inl (p2, p3, p, ne2)) ↦
          let (l2, s2) = is_entry c2 h2 ne2 in
          let (rest_nil, more_nil) = last_quad rest more p more_e in
          let a = v0 * 4 + v1 / 16 in
          let b = v1 % 16 * 16 + v2 / 4 in
          let (clear, pushed) =
            if_some (v2 % 4)
              (sym (entries_two v0 v1 v2 v3 l0 l1 l2) ∙ sym (entries_eq v0 v1 v2 v3 p2 p3 p) ∙ e) in
          let whole : a ∷ b ∷ [] ≡ d ++ more =
            ap (λ (l : Bytes). l ++ []) pushed ∙ ap (λ (l : Bytes). d ++ l) (sym more_nil) in
          let octets : (a < 256) × (b < 256) = (omega arith, omega arith) in
          subst (λ l. All IsByte l × (c0 ∷ c1 ∷ c2 ∷ c3 ∷ rest ≡ base64_encode l)) whole
            (
              (octets.0, (octets.1, tt)),
              sym (
                  encode_two a b octets.0 octets.1
                  ∙ quad_eq (ap symbol (omega arith) ∙ s0) (ap symbol (omega arith) ∙ s1)
                      (ap symbol (omega (arith, clear)) ∙ s2) (sym ((==_iff c3 b'=').0 p3))
                  ∙ ap (λ (l : Bytes). c0 ∷ c1 ∷ c2 ∷ c3 ∷ l) (sym rest_nil)),
            )
      | inr (inr (p2, p3, ne2, ne3)) ↦
          let (l2, s2) = is_entry c2 h2 ne2 in
          let (l3, s3) = is_entry c3 h3 ne3 in
          let a = v0 * 4 + v1 / 16 in
          let b = v1 % 16 * 16 + v2 / 4 in
          let c = v2 % 4 * 64 + v3 in
          let pushed : a ∷ b ∷ c ∷ [] ≡ d = some_injective (
            sym (entries_three (is_last rest) v0 v1 v2 v3 l0 l1 l2 l3)
            ∙ sym (entries_eq v0 v1 v2 v3 p2 p3 refl)
            ∙ e) in
          let octets : (a < 256) × (b < 256) × (c < 256) =
            (omega arith, omega arith, omega arith) in
          subst
            (λ l. All IsByte (l ++ more) × (c0 ∷ c1 ∷ c2 ∷ c3 ∷ rest ≡ base64_encode (l ++ more)))
            pushed
            (
              (octets.0, (octets.1, (octets.2, more_h))),
              sym (
                  encode_three a b c more octets.0 octets.1 octets.2
                  ∙ quad_eq (ap symbol (omega arith) ∙ s0) (ap symbol (omega arith) ∙ s1)
                      (ap symbol (omega arith) ∙ s2) (ap symbol (omega arith) ∙ s3)
                  ∙ ap (λ (l : Bytes). c0 ∷ c1 ∷ c2 ∷ c3 ∷ l) (sym rest_e)),
            )
    ]

then_push-some :
    (one more : Option Bytes) {pushed : Bytes}
    → then_push one more ≡ some pushed
    → (d ds : Bytes) × (one ≡ some d) × (more ≡ some ds) × (pushed ≡ d ++ ds)
then_push-some none more h = cc
then_push-some (some d) none h = cc
then_push-some (some d) (some ds) h = (d, ds, refl, refl, sym (some_injective h))

no_text : [] ≡ base64_encode []
unfolding base64_encode
no_text = refl

decode_quads-some :
    (s : Bytes) {octets : Bytes}
    → All IsByte s
    → decode_quads s ≡ some octets
    → All IsByte octets × (s ≡ base64_encode octets)
unfolding decode_quads
decode_quads-some [] h e =
    subst (λ l. All IsByte l × ([] ≡ base64_encode l)) (some_injective e) (tt, no_text)
decode_quads-some (c0 ∷ []) h e = cc
decode_quads-some (c0 ∷ c1 ∷ []) h e = cc
decode_quads-some (c0 ∷ c1 ∷ c2 ∷ []) h e = cc
decode_quads-some (c0 ∷ c1 ∷ c2 ∷ c3 ∷ rest) h e =
    let (d, ds, one, more, whole) = then_push-some _ (decode_quads rest) e in
    let (octets, rest_e) = decode_quads-some rest h.1.1.1.1 more in
    subst (λ l. All IsByte l × (c0 ∷ c1 ∷ c2 ∷ c3 ∷ rest ≡ base64_encode l)) (sym whole)
      (quad_encoded c0 c1 c2 c3 rest ds d h.0 h.1.0 h.1.1.0 h.1.1.1.0 one more octets rest_e)

-- On text as octets: the decoder gives octets exactly when the text is what the encoder writes for
-- them. So a padding out of place, a stray bit under it, a character outside the alphabet or a
-- length that is no multiple of four is refused, and no two texts stand for the same octets.
pub base64_decode_iff :
    (s octets : Bytes)
    → All IsByte s
    → (base64_decode s ≡ some octets) ↔ (All IsByte octets × (s ≡ base64_encode octets))
unfolding base64_decode
base64_decode_iff s octets h = (decoded, encoded)
  where
    quads : (length s % 4 == 0) ≡ true → base64_decode s ≡ decode_quads s
    quads whole = rw whole refl

    decoded : base64_decode s ≡ some octets → All IsByte octets × (s ≡ base64_encode octets)
    decoded e = elim (Bool-cases (length s % 4 == 0)) [
      | inl whole ↦ decode_quads-some s h (sym (quads whole) ∙ e)
      | inr ragged ↦ cc (rw ragged at e)
    ]

    encoded : All IsByte octets × (s ≡ base64_encode octets) → base64_decode s ≡ some octets
    encoded (small, e) =
        quads (ground (arith, ap (λ (l : Bytes). length l % 4) e, length-base64_encode octets))
        ∙ ap decode_quads e
        ∙ decode_quads-base64_encode octets small
