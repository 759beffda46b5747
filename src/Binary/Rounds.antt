-- ===== src/Binary/Rounds.antt =====
-- src/detail/binary.cpp: the rounds that read a varint, on what was written.
-- One round on an octet `g`, with the group joined by a sum.
use zen.Prelude.{Bool-cases, ap, arith, bit_and, bit_or, false, inl, inr, ltb, ltb→lt, some, suc}
use zen.Prelude.{zero, ℕ, ◌%◌, ◌*◌, ◌++◌, ◌+◌, ◌/◌, ◌<◌, ◌^◌, ◌∙◌, ◌∷◌, ◌≡◌, ◌≤◌}
use zen.Prelude.Bits.{and_mask127, or_low_high, top_bit}
use zen.Binary.{Bytes, uvarint_loop}
use zen.Binary.Groups.{grouped_lt, minimal_groups, shift_seven}
use native.Mathlib.Decide.{dec_le}
use native.Mathlib.Nat.{div-add-mod, mod-eq_of_lt, pow-le-pow_right}

round_joined :
    (b shift result : ℕ)
    → b < 256
    → result < 2 ^ shift
    → result + b % 128 * 2 ^ shift < 2 ^ 64
    → bit_or result (bit_and b 0x7F * 2 ^ shift % 2 ^ 64) ≡ result + b % 128 * 2 ^ shift
round_joined b shift result hb fits whole =
    rw (and_mask127 b, mod-eq_of_lt (grouped_lt b shift result whole))
      (or_low_high shift result (b % 128) fits)

group_scaled : (g u : ℕ) → g ≤ 127 → g * u ≤ 127 * u
group_scaled g u h = grind arith

-- The group of round `idx` fits above what the earlier rounds read; the tenth is one bit.
pub round_fits :
    (b idx shift result : ℕ)
    → shift ≡ 7 * idx
    → idx ≤ 9
    → (idx ≡ 9 → b % 128 ≤ 1)
    → result < 2 ^ shift
    → result + b % 128 * 2 ^ shift < 2 ^ 64
round_fits b idx shift result es small last fits = elim (dec_le idx 8) [
  | yes early ↦ omega (
    arith,
    group_scaled (b % 128) (2 ^ shift) (omega arith),
    pow-le-pow_right {n = 2} (omega arith) {i = shift} {j = 56} (omega arith),
  )
  | no late ↦
      let nine : shift ≡ 63 = omega arith in
      let whole : result + b % 128 * 2 ^ 63 < 2 ^ 64 =
        omega (arith, ap (λ (s : ℕ). 2 ^ s) nine, last (omega arith)) in
      rw nine whole
]

-- A round on an octet with a clear top bit ends the loop.
pub last_round :
    (b idx shift result : ℕ) (rest : Bytes)
    → b < 128
    → shift ≡ 7 * idx
    → idx ≤ 9
    → (idx ≡ 9 → b ≤ 1)
    → (0 < idx → 0 < b)
    → result < 2 ^ shift
    → uvarint_loop idx shift result (b ∷ rest) ≡ some (result + b * 2 ^ shift, rest)
unfolding uvarint_loop
last_round b idx shift result rest hb es small last least fits = ground (
  arith,
  top_bit b,
  round_joined b shift result (omega arith) fits
      (round_fits b idx shift result es small (λ e. omega (arith, last e)) fits),
  last,
  least,
)

-- A round on an octet with the top bit set goes on, before the tenth.
pub inner_round :
    (b idx shift result : ℕ) (rest : Bytes)
    → 128 ≤ b
    → b < 256
    → shift ≡ 7 * idx
    → idx ≤ 8
    → result < 2 ^ shift
    → uvarint_loop idx shift result (b ∷ rest)
      ≡ uvarint_loop (idx + 1) (shift + 7) (result + b % 128 * 2 ^ shift) rest
unfolding uvarint_loop
inner_round b idx shift result rest lo hb es small fits = ground (
  arith,
  top_bit b,
  round_joined b shift result hb fits
      (round_fits b idx shift result es (omega arith) (λ e. absurd (omega arith)) fits),
)

top_clear : (w shift result : ℕ) → 2 ^ 63 ≤ 2 ^ shift → result + w * 2 ^ shift < 2 ^ 64 → w ≤ 1
top_clear w shift result high whole = elim (dec_le w 1) [
  | yes h ↦ h
  | no h ↦ absurd (omega (arith, two_scaled w (2 ^ shift) (omega arith)))
]
  where
    two_scaled : (w u : ℕ) → 2 ≤ w → 2 * u ≤ w * u
    two_scaled w u h = grind arith

split_group :
    (w shift result : ℕ)
    → result + w % 128 * 2 ^ shift + w / 128 * 2 ^ (shift + 7) ≡ result + w * 2 ^ shift
split_group w shift result = omega (
  arith,
  ap (λ (u : ℕ). w / 128 * u) (shift_seven shift),
  ap (λ (t : ℕ). t * 2 ^ shift) (div-add-mod w 128),
)

pub grouped_fits :
    (w shift result : ℕ) → result < 2 ^ shift → result + w % 128 * 2 ^ shift < 2 ^ (shift + 7)
grouped_fits w shift result fits =
    omega (arith, shift_seven shift, group_scaled (w % 128) (2 ^ shift) (omega arith))

inner_group : (w : ℕ) → (w % 128 + 128) % 128 ≡ w % 128
inner_group w = omega arith

more_large : (w : ℕ) → ltb w 128 ≡ false → 128 ≤ w
more_large w h = ground arith

-- From round `idx` on, the loop reads the minimal groups of what is left of the number.
pub uvarint_loop-minimal_groups :
    (k idx shift result w : ℕ) (rest : Bytes)
    → k + idx ≡ 9
    → shift ≡ 7 * idx
    → result < 2 ^ shift
    → (0 < idx → 0 < w)
    → result + w * 2 ^ shift < 2 ^ 64
    → uvarint_loop idx shift result (minimal_groups k w ++ rest)
      ≡ some (result + w * 2 ^ shift, rest)
unfolding minimal_groups
uvarint_loop-minimal_groups zero idx shift result w rest ek es fits least whole =
    let top : w ≤ 1 =
      top_clear w shift result
        (pow-le-pow_right {n = 2} (omega arith) {i = 63} {j = shift} (omega arith)) whole in
    last_round w idx shift result rest (omega arith) es (omega arith) (λ _. top) least fits
uvarint_loop-minimal_groups (suc k) idx shift result w rest ek es fits least whole =
    elim (Bool-cases (ltb w 128)) [
      | inl small ↦ rw small (
          last_round w idx shift result rest (ltb→lt w 128 small) es (omega arith)
            (λ e. absurd (omega arith)) least fits)
      | inr more ↦ rw more (
          inner_round (w % 128 + 128) idx shift result (minimal_groups k (w / 128) ++ rest)
            (omega arith) (omega arith) es (omega arith) fits
          ∙ rw (inner_group w) (
              uvarint_loop-minimal_groups k (idx + 1) (shift + 7) (result + w % 128 * 2 ^ shift)
                (w / 128) rest (omega arith) (omega arith) (grouped_fits w shift result fits)
                (λ _. omega (arith, ltb→lt w 128, more_large w more))
                (omega (arith, split_group w shift result)))
          ∙ ap (λ (v : ℕ). some (v, rest)) (split_group w shift result))
    ]
