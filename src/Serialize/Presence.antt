-- ===== src/Serialize/Presence.antt =====
-- src/serialize.cpp: the presence bitmask of a value's slots.
-- The mask after the loop of `bin_encode_body` has passed slots from number `i` on.
use zen.Prelude.{==_iff, All, Bool-cases, IsByte, ap, arith, false, inl, inr, length, refl}
use zen.Prelude.{replicate, suc, sym, true, true-neq-false, zero, ℕ, ◌%◌, ◌*◌, ◌+◌, ◌-◌, ◌/◌, ◌<◌}
use zen.Prelude.{◌==◌, ◌^◌, ◌||◌, ◌∙◌, ◌≡◌, ◌≢◌, ◌≤◌}
use zen.Binary.{Bytes}
use zen.Value.{Cell, Slots, absent, no_slots, present}
use zen.Serialize.Encode.{mask_size}
use zen.Serialize.Decode.{mask_bit, octet_at, padding_clear}
use zen.Serialize.Mask.{bit_at, bit_at-zero, length-or_at, low_octet, mask_bit-set_bit}
use zen.Serialize.Mask.{octet_at-or_at, set_bit, set_bit-IsByte}
use native.Mathlib.Nat.{one-le-pow}

unfoldable pub fill : Slots → ℕ → Bytes → Bytes
fill no_slots i mask = mask
fill (absent slots) i mask = fill slots (i + 1) mask
fill (present c slots) i mask = fill slots (i + 1) (set_bit mask i)

abbrev pub slots_length : Slots → ℕ
slots_length no_slots = 0
slots_length (absent slots) = suc (slots_length slots)
slots_length (present c slots) = suc (slots_length slots)

-- The bits from `i` on say which slots are present.
abbrev pub Marks : Bytes → ℕ → Slots → Type 0
Marks mask i no_slots = Unit
Marks mask i (absent slots) = (mask_bit mask i ≡ false) × Marks mask (i + 1) slots
Marks mask i (present c slots) = (mask_bit mask i ≡ true) × Marks mask (i + 1) slots

pub length-fill : (slots : Slots) (i : ℕ) (mask : Bytes) → length (fill slots i mask) ≡ length mask
unfolding fill
length-fill no_slots i mask = refl
length-fill (absent slots) i mask = length-fill slots (i + 1) mask
length-fill (present c slots) i mask =
    length-fill slots (i + 1) (set_bit mask i) ∙ length-or_at mask (i / 8) _

pub fill-IsByte :
    (slots : Slots) (i : ℕ) (mask : Bytes) → All IsByte mask → All IsByte (fill slots i mask)
unfolding fill
fill-IsByte no_slots i mask h = h
fill-IsByte (absent slots) i mask h = fill-IsByte slots (i + 1) mask h
fill-IsByte (present c slots) i mask h =
    fill-IsByte slots (i + 1) (set_bit mask i) (set_bit-IsByte mask i h)

-- Room for the bits of the slots.
abbrev HasRoom : Slots → ℕ → Bytes → Type 0
HasRoom slots i mask = i + slots_length slots ≤ 8 * length mask

set_bit-HasRoom :
    (c : Cell) (slots : Slots) (i : ℕ) (mask : Bytes)
    → HasRoom (present c slots) i mask
    → HasRoom slots (i + 1) (set_bit mask i)
set_bit-HasRoom c slots i mask h =
    omega (arith, h, length-or_at mask (i / 8) (1 * 2 ^ (i % 8) % 256))

fill_keeps :
    (slots : Slots) (i j : ℕ) (mask : Bytes)
    → All IsByte mask
    → HasRoom slots i mask
    → j < i
    → mask_bit (fill slots i mask) j ≡ mask_bit mask j
unfolding fill
fill_keeps no_slots i j mask octets room before = refl
fill_keeps (absent slots) i j mask octets room before =
    fill_keeps slots (i + 1) j mask octets (omega (arith, room)) (omega arith)
fill_keeps (present c slots) i j mask octets room before =
    fill_keeps slots (i + 1) j (set_bit mask i) (set_bit-IsByte mask i octets)
      (set_bit-HasRoom c slots i mask room) (omega arith)
    ∙ mask_bit-set_bit mask i j octets (omega (arith, room))
    ∙ ap (λ t. t || mask_bit mask j) {y = false} (ground (arith, before))

-- No bit is set from `i` on.
abbrev IsClear : Bytes → ℕ → Type 0
IsClear mask i = (j : ℕ) → i ≤ j → mask_bit mask j ≡ false

pub fill-Marks :
    (slots : Slots) (i : ℕ) (mask : Bytes)
    → All IsByte mask
    → HasRoom slots i mask
    → IsClear mask i
    → Marks (fill slots i mask) i slots
unfolding fill
fill-Marks no_slots i mask octets room clear = tt
fill-Marks (absent slots) i mask octets room clear = (
  fill_keeps slots (i + 1) i mask octets (omega (arith, room)) (omega arith)
      ∙ clear i (omega arith),
  fill-Marks slots (i + 1) mask octets (omega (arith, room)) (λ j h. clear j (omega (arith, h))),
)
fill-Marks (present c slots) i mask octets room clear = (
  fill_keeps slots (i + 1) i (set_bit mask i) (set_bit-IsByte mask i octets)
        (set_bit-HasRoom c slots i mask room) (omega arith)
      ∙ mask_bit-set_bit mask i i octets (omega (arith, room))
      ∙ ap (λ t. t || mask_bit mask i) {y = true} (ground arith),
  fill-Marks slots (i + 1) (set_bit mask i) (set_bit-IsByte mask i octets)
      (set_bit-HasRoom c slots i mask room)
      (λ j h.
        mask_bit-set_bit mask i j octets (omega (arith, room))
        ∙ ap (λ t. t || mask_bit mask j) {y = false} (ground (arith, h))
        ∙ clear j (omega (arith, h))),
)

-- The octet of the last field, below a power of two where it has padding.
abbrev HasLowLast : ℕ → Bytes → Type 0
HasLowLast n mask = octet_at mask (mask_size n - 1) < 2 ^ (n % 8)

set_bit-HasLowLast :
    (n i : ℕ) (mask : Bytes)
    → i < n
    → n % 8 ≢ 0
    → i / 8 < length mask
    → HasLowLast n mask
    → HasLowLast n (set_bit mask i)
set_bit-HasLowLast n i mask before padded within low =
    elim (Bool-cases (i / 8 == mask_size n - 1)) [
      | inl same ↦
          rw (octet_at-or_at mask (i / 8) (mask_size n - 1) (1 * 2 ^ (i % 8) % 256) within, same)
            ((low_octet (n % 8) _ (omega arith) low).1 (i % 8) (small ((==_iff _ _).0 same)))
      | inr other ↦
          rw (octet_at-or_at mask (i / 8) (mask_size n - 1) (1 * 2 ^ (i % 8) % 256) within, other)
            low
    ]
  where
    small : i / 8 ≡ mask_size n - 1 → i % 8 < n % 8
    small e = omega (arith, e)

fill-HasLowLast :
    (slots : Slots) (n i : ℕ) (mask : Bytes)
    → n % 8 ≢ 0
    → i + slots_length slots ≤ n
    → HasRoom slots i mask
    → HasLowLast n mask
    → HasLowLast n (fill slots i mask)
unfolding fill
fill-HasLowLast no_slots n i mask padded fits room low = low
fill-HasLowLast (absent slots) n i mask padded fits room low =
    fill-HasLowLast slots n (i + 1) mask padded (omega (arith, fits)) (omega (arith, room)) low
fill-HasLowLast (present c slots) n i mask padded fits room low =
    fill-HasLowLast slots n (i + 1) (set_bit mask i) padded (omega (arith, fits))
      (set_bit-HasRoom c slots i mask room)
      (set_bit-HasLowLast n i mask (omega (arith, fits)) padded (omega (arith, room)) low)

-- A new mask: all zero.
abbrev pub new_mask : ℕ → Bytes
new_mask n = replicate (mask_size n) 0

abbrev pub mask_of : Slots → Bytes
mask_of slots = fill slots 0 (new_mask (slots_length slots))

octet_at-replicate : (m j : ℕ) → octet_at (replicate m 0) j ≡ 0
octet_at-replicate zero j = refl
octet_at-replicate (suc m) zero = refl
octet_at-replicate (suc m) (suc j) = octet_at-replicate m j

replicate-IsByte : (m : ℕ) → All IsByte (replicate m 0)
replicate-IsByte zero = tt
replicate-IsByte (suc m) = (omega arith, replicate-IsByte m)

pub length-replicate : (m : ℕ) → length {A = ℕ} (replicate m 0) ≡ m
length-replicate zero = refl
length-replicate (suc m) = ap suc (length-replicate m)

new_mask-IsClear : (n : ℕ) → IsClear (new_mask n) 0
unfolding mask_bit
new_mask-IsClear n j h =
    ap (λ (b : ℕ). bit_at b (j % 8)) (octet_at-replicate (mask_size n) (j / 8))
    ∙ bit_at-zero (j % 8) (omega arith)

new_mask-HasLowLast : (n : ℕ) → HasLowLast n (new_mask n)
new_mask-HasLowLast n =
    rw (octet_at-replicate (mask_size n) (mask_size n - 1)) (one-le-pow (n % 8) 2 (omega arith))

pub mask_of-Marks : (slots : Slots) → Marks (mask_of slots) 0 slots
mask_of-Marks slots =
    fill-Marks slots 0 _ (replicate-IsByte (mask_size (slots_length slots)))
      (omega (arith, length-replicate (mask_size (slots_length slots))))
      (new_mask-IsClear (slots_length slots))

pub mask_of-IsByte : (slots : Slots) → All IsByte (mask_of slots)
mask_of-IsByte slots = fill-IsByte slots 0 _ (replicate-IsByte (mask_size (slots_length slots)))

pub length-mask_of : (slots : Slots) → length (mask_of slots) ≡ mask_size (slots_length slots)
length-mask_of slots = length-fill slots 0 _ ∙ length-replicate (mask_size (slots_length slots))

pub mask_of-padding_clear :
    (slots : Slots) → padding_clear (mask_of slots) (slots_length slots) ≡ true
unfolding padding_clear
mask_of-padding_clear slots = elim (Bool-cases (slots_length slots % 8 == 0)) [
  | inl whole ↦ rw whole refl
  | inr padded ↦
      let n = slots_length slots in
      let low : HasLowLast n (mask_of slots) =
        fill-HasLowLast slots n 0 (new_mask n)
          (λ e. true-neq-false (sym ((==_iff _ 0).1 e) ∙ padded)) (omega arith)
          (omega (arith, length-replicate (mask_size n))) (new_mask-HasLowLast n) in
      rw (padded, (low_octet (n % 8) _ (omega arith) low).0) refl
]
