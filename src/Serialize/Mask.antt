-- ===== src/Serialize/Mask.antt =====
-- src/serialize.cpp: the presence bitmask, as it is filled and as it is read.
-- Over a small range every value is checked by evaluation.
-- One bit of an octet, and the octet with one more bit.
use zen.Prelude.{==_iff, All, Bool, Bool-cases, IsByte, [], ap, arith, bit_and, bit_or, false}
use zen.Prelude.{if_false, if_true, if◌then◌else◌, inl, inr, length, ltb, ltb→lt, not, refl, suc}
use zen.Prelude.{sym, true, zero, ℕ, ◌%◌, ◌&&◌, ◌*◌, ◌-◌, ◌/◌, ◌<◌, ◌==◌, ◌^◌, ◌||◌, ◌∙◌, ◌∷◌}
use zen.Prelude.{◌≡◌, ◌≤◌}
use zen.Prelude.Tables.{every_below, every_below-holds}
use zen.Binary.{Bytes}
use zen.Serialize.Encode.{or_at}
use zen.Serialize.Decode.{mask_bit, octet_at}

abbrev pub bit_at : ℕ → ℕ → Bool
bit_at b j = not (bit_and (b / 2 ^ j) 1 == 0)

abbrev pub with_bit : ℕ → ℕ → ℕ
with_bit b k = bit_or b (1 * 2 ^ k % 256)

abbrev same_bool : Bool → Bool → Bool
same_bool true b = b
same_bool false b = not b

same_bool→eq : (a b : Bool) → same_bool a b ≡ true → a ≡ b
same_bool→eq true b h = sym h
same_bool→eq false true h = cc
same_bool→eq false false h = refl

bit_table :
    every_below 256 (λ b.
      every_below 8
        (λ k. every_below 8 (λ j. same_bool (bit_at (with_bit b k) j) (k == j || bit_at b j))))
    ≡ true
unfolding every_below
bit_table = refl

bit_at-with_bit :
    (b k j : ℕ) → b < 256 → k < 8 → j < 8 → bit_at (with_bit b k) j ≡ (k == j || bit_at b j)
bit_at-with_bit b k j hb hk hj = same_bool→eq _ _ (
    every_below-holds 8 _ j (every_below-holds 8 _ k (every_below-holds 256 _ b bit_table hb) hk)
      hj)

-- An octet below 2 ^ r stays so when a bit below `r` is set, and has no bit from `r` on.
low_table :
    every_below 9 (λ r. every_below (2 ^ r) (λ b.
      (bit_and b (255 - (2 ^ r - 1) % 256) == 0)
      && every_below r (λ k. ltb (with_bit b k) (2 ^ r))))
    ≡ true
unfolding every_below
low_table = refl

pub low_octet :
    (r b : ℕ)
    → r ≤ 8
    → b < 2 ^ r
    → (bit_and b (255 - (2 ^ r - 1) % 256) ≡ 0) × ((k : ℕ) → k < r → with_bit b k < 2 ^ r)
low_octet r b hr hb =
    let row = every_below-holds (2 ^ r) _ b (every_below-holds 9 _ r low_table (omega arith)) hb in
    (
      (==_iff _ 0).0 (and_left _ _ row),
      λ k hk. ltb→lt _ _ (every_below-holds r _ k (and_right _ _ row) hk),
    )
  where
    and_left : (a c : Bool) → (a && c) ≡ true → a ≡ true
    and_left true c h = refl
    and_left false c h = h

    and_right : (a c : Bool) → (a && c) ≡ true → c ≡ true
    and_right true c h = h
    and_right false c h = cc

zero_table : every_below 8 (λ j. not (bit_at 0 j)) ≡ true
unfolding every_below
zero_table = refl

pub bit_at-zero : (j : ℕ) → j < 8 → bit_at 0 j ≡ false
bit_at-zero j h = sym (same_bool→eq false _ (every_below-holds 8 _ j zero_table h))

-- `mask[i / 8] |= 1 << (i % 8)`.
abbrev pub set_bit : Bytes → ℕ → Bytes
set_bit mask i = or_at mask (i / 8) (1 * 2 ^ (i % 8) % 256)

pub length-or_at : (mask : Bytes) (at bits : ℕ) → length (or_at mask at bits) ≡ length mask
unfolding or_at
length-or_at [] at bits = refl
length-or_at (b ∷ mask) zero bits = refl
length-or_at (b ∷ mask) (suc at) bits = ap suc (length-or_at mask at bits)

pub octet_at-or_at :
    (mask : Bytes) (at j bits : ℕ)
    → at < length mask
    → octet_at (or_at mask at bits) j
      ≡ (if at == j then bit_or (octet_at mask j) bits else octet_at mask j)
unfolding or_at
octet_at-or_at [] at j bits h = absurd (omega arith)
octet_at-or_at (b ∷ mask) zero zero bits h = refl
octet_at-or_at (b ∷ mask) zero (suc j) bits h = ground arith
octet_at-or_at (b ∷ mask) (suc at) zero bits h = ground arith
octet_at-or_at (b ∷ mask) (suc at) (suc j) bits h = ground (arith, octet_at-or_at mask at j bits)

octet_at-IsByte : (mask : Bytes) (j : ℕ) → All IsByte mask → octet_at mask j < 256
octet_at-IsByte [] j h = omega arith
octet_at-IsByte (b ∷ mask) zero (hb, h) = hb
octet_at-IsByte (b ∷ mask) (suc j) (hb, h) = octet_at-IsByte mask j h

or_at-IsByte :
    (mask : Bytes) (at k : ℕ)
    → k < 8
    → All IsByte mask
    → All IsByte (or_at mask at (1 * 2 ^ k % 256))
unfolding or_at
or_at-IsByte [] at k hk h = tt
or_at-IsByte (b ∷ mask) zero k hk (hb, h) =
    ((low_octet 8 b (omega arith) (omega (arith, hb))).1 k hk, h)
or_at-IsByte (b ∷ mask) (suc at) k hk (hb, h) = (hb, or_at-IsByte mask at k hk h)

pub set_bit-IsByte : (mask : Bytes) (i : ℕ) → All IsByte mask → All IsByte (set_bit mask i)
set_bit-IsByte mask i h = or_at-IsByte mask (i / 8) (i % 8) (omega arith) h

-- Setting a bit sets that bit and no other.
pub mask_bit-set_bit :
    (mask : Bytes) (i j : ℕ)
    → All IsByte mask
    → i / 8 < length mask
    → mask_bit (set_bit mask i) j ≡ (i == j || mask_bit mask j)
unfolding mask_bit
mask_bit-set_bit mask i j octets within = elim (Bool-cases (i / 8 == j / 8)) [
  | inl same ↦
      let here : i / 8 ≡ j / 8 = (==_iff _ _).0 same in
      ap (λ (b : ℕ). bit_at b (j % 8))
        (octet_at-or_at mask (i / 8) (j / 8) _ within ∙ if_true _ _ same)
      ∙ bit_at-with_bit (octet_at mask (j / 8)) (i % 8) (j % 8)
          (octet_at-IsByte mask (j / 8) octets) (omega arith) (omega arith)
      ∙ ap (λ t. t || bit_at (octet_at mask (j / 8)) (j % 8)) (same_place here)
  | inr other ↦
      ap (λ (b : ℕ). bit_at b (j % 8))
        (octet_at-or_at mask (i / 8) (j / 8) _ within ∙ if_false _ _ other)
      ∙ ap (λ t. t || bit_at (octet_at mask (j / 8)) (j % 8)) (other_place other)
]
  where
    same_place : i / 8 ≡ j / 8 → (i % 8 == j % 8) ≡ (i == j)
    same_place here = ground (arith, here)

    other_place : (i / 8 == j / 8) ≡ false → false ≡ (i == j)
    other_place other = ground (arith, other)
