-- ===== src/Binary/Varint.antt =====
-- src/detail/binary.cpp: what the reader of varints accepts.
-- What the loop accepts from round `idx` on: the minimal groups of some number `w`, which is not
-- zero after the first round.
use zen.Prelude.{All, Bool-cases, IsByte, [], ap, arith, inl, inr, ltb, ltb→lt, lt→ltb, refl}
use zen.Prelude.{some, suc, sym, zero, ℕ, ◌%◌, ◌*◌, ◌++◌, ◌+◌, ◌<◌, ◌^◌, ◌↔◌, ◌∙◌, ◌∷◌, ◌≡◌, ◌≤◌}
use zen.Prelude.Bits.{top_bit}
use zen.Binary.{Bytes, put_uvarint, uvarint, uvarint_loop}
use zen.Binary.Groups.{minimal_groups, put_uvarint-minimal_groups, shift_seven}
use zen.Binary.Rounds.{grouped_fits, inner_round, last_round, round_fits}
use zen.Binary.Rounds.{uvarint_loop-minimal_groups}
use mathlib.Core.Path.{ap₂}
use native.Mathlib.Decide.{dec_lt}

abbrev Accepted : ℕ → ℕ → ℕ → ℕ → Bytes → ℕ → Bytes → Type 0
Accepted k idx shift result bytes v rest =
    (w : ℕ) × (v ≡ result + w * 2 ^ shift)
    × (v < 2 ^ 64)
    × (0 < idx → 0 < w)
    × (bytes ≡ minimal_groups k w ++ rest)

-- What an accepted octet with a clear top bit satisfies.
last_round_inv :
    (b idx shift result : ℕ) (bytes : Bytes) (v : ℕ) (rest : Bytes)
    → b < 128
    → shift ≡ 7 * idx
    → idx ≤ 9
    → result < 2 ^ shift
    → uvarint_loop idx shift result (b ∷ bytes) ≡ some (v, rest)
    → (idx ≡ 9 → b ≤ 1) × (0 < idx → 0 < b)
unfolding uvarint_loop
last_round_inv b idx shift result bytes v rest hb es small fits h =
    ((λ e. ground (arith, top_bit b)), (λ e. ground (arith, top_bit b)))

inner_round_inv :
    (b idx shift result : ℕ) (bytes : Bytes) (v : ℕ) (rest : Bytes)
    → 128 ≤ b
    → idx ≤ 9
    → uvarint_loop idx shift result (b ∷ bytes) ≡ some (v, rest)
    → idx ≤ 8
unfolding uvarint_loop
inner_round_inv b idx shift result bytes v rest hb small h = ground arith

minimal_groups_small : (k w : ℕ) → w < 128 → minimal_groups k w ≡ w ∷ []
unfolding minimal_groups
minimal_groups_small zero w h = refl
minimal_groups_small (suc k) w h = rw (lt→ltb w 128 h)

minimal_groups_large :
    (k b w : ℕ)
    → 128 ≤ b
    → b < 256
    → 0 < w
    → minimal_groups (suc k) (b % 128 + 128 * w) ≡ b ∷ minimal_groups k w
unfolding minimal_groups
minimal_groups_large k b w lo hi pos_w = elim (Bool-cases (ltb (b % 128 + 128 * w) 128)) [
  | inl small ↦ absurd (omega (arith, ltb→lt _ _ small))
  | inr more ↦ rw more (
      ap₂ (λ (a c : ℕ). a ∷ minimal_groups k c) {x = (b % 128 + 128 * w) % 128 + 128} (omega arith)
        (omega arith))
]

join_group :
    (b w shift result : ℕ)
    → result + b % 128 * 2 ^ shift + w * 2 ^ (shift + 7) ≡ result + (b % 128 + 128 * w) * 2 ^ shift
join_group b w shift result = omega (arith, ap (λ (u : ℕ). w * u) (shift_seven shift))

module _ (idx shift result b : ℕ) (bytes : Bytes) (v : ℕ) (rest : Bytes) (es : shift ≡ 7 * idx)
    (small : idx ≤ 9) (fits : result < 2 ^ shift) where
  last-Accepted :
      (k : ℕ)
      → b < 128
      → uvarint_loop idx shift result (b ∷ bytes) ≡ some (v, rest)
      → Accepted k idx shift result (b ∷ bytes) v rest
  last-Accepted k hb h =
      let (last, least) = last_round_inv b idx shift result bytes v rest hb es small fits h in
      let done = last_round b idx shift result bytes hb es small last least fits in
      let low : b % 128 ≡ b = omega arith in
      let bound = round_fits b idx shift result es small (λ e. omega (arith, last e)) fits in
      (
        b,
        ground (arith, done, h),
        ground (arith, done, h, rw low at bound),
        least,
        rw (minimal_groups_small k b hb) (ground (arith, done, h)),
      )

uvarint_loop-Accepted :
    (bytes : Bytes) (k idx shift result v : ℕ) (rest : Bytes)
    → All IsByte bytes
    → k + idx ≡ 9
    → shift ≡ 7 * idx
    → result < 2 ^ shift
    → uvarint_loop idx shift result bytes ≡ some (v, rest)
    → Accepted k idx shift result bytes v rest
uvarint_loop-Accepted [] k idx shift result v rest octets ek es fits h = unfold uvarint_loop in cc
uvarint_loop-Accepted (b ∷ bytes) zero idx shift result v rest octets ek es fits h =
    elim (dec_lt b 128) [
      | yes hb ↦ last-Accepted idx shift result b bytes v rest es (omega arith) fits 0 hb h
      | no hb ↦ absurd (
          omega
            (arith, inner_round_inv b idx shift result bytes v rest (omega arith) (omega arith) h))
    ]
uvarint_loop-Accepted (b ∷ bytes) (suc k) idx shift result v rest octets ek es fits h =
    elim (dec_lt b 128) [
      | yes hb ↦ last-Accepted idx shift result b bytes v rest es (omega arith) fits (suc k) hb h
      | no hb ↦
          let (w, ev, bound, least, e) =
            uvarint_loop-Accepted bytes k (idx + 1) (shift + 7) (result + b % 128 * 2 ^ shift) v
              rest octets.1 (omega arith) (omega arith) (grouped_fits b shift result fits)
              (sym (
                  inner_round b idx shift result bytes (omega arith) octets.0 es (omega arith) fits)
                ∙ h) in
          (
            b % 128 + 128 * w,
            ev ∙ join_group b w shift result,
            bound,
            (λ _. omega (arith, least (omega arith))),
            rw (minimal_groups_large k b w (omega arith) octets.0 (least (omega arith)), e),
          )
    ]

-- On octets, `uvarint` returns `v` and leaves `rest` exactly when `v` is a 64-bit number and the
-- input is what `put_uvarint` writes for `v`, followed by `rest`: an encoding that is overlong,
-- not minimal or cut short is refused.
pub uvarint_iff :
    (bytes : Bytes) (v : ℕ) (rest : Bytes)
    → All IsByte bytes
    → (uvarint bytes ≡ some (v, rest)) ↔ ((v < 2 ^ 64) × (bytes ≡ put_uvarint [] v ++ rest))
unfolding uvarint
uvarint_iff bytes v rest octets = (accepted, written)
  where
    accepted : uvarint bytes ≡ some (v, rest) → (v < 2 ^ 64) × (bytes ≡ put_uvarint [] v ++ rest)
    accepted h =
        let (w, ev, bound, least, e) =
          uvarint_loop-Accepted bytes 9 0 0 0 v rest octets (omega arith) (omega arith)
            (omega arith) h in
        let same : v ≡ w = omega arith in
        (bound, rw (put_uvarint-minimal_groups [] v bound, same, e))

    written : (v < 2 ^ 64) × (bytes ≡ put_uvarint [] v ++ rest) → uvarint bytes ≡ some (v, rest)
    written (bound, e) =
        rw (e, put_uvarint-minimal_groups [] v bound)
          (uvarint_loop-minimal_groups 9 0 0 0 v rest (omega arith) (omega arith) (omega arith)
              (λ z. elim z [ ]) (omega arith)
            ∙ ap (λ (n : ℕ). some (n, rest)) (omega arith))
