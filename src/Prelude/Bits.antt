-- ===== src/Prelude/Bits.antt =====
-- Masks, shifts and disjoint fields as arithmetic, at every width.
-- The native operations stand for a recursion on binary digits with fuel, which is dropped first.
use Prim.Native.Nat.{ℕ, zero, suc, ◌+◌, ◌-◌, ◌*◌, ◌/◌, ◌%◌, ◌^◌, ◌≤◌, ◌<◌, min, max}
use Prim.Native.Nat.{bit_and, bit_or, bit_xor, digits, bitwise, differ}
use Prim.Native.Nat.{bit_and-bitwise, bit_or-bitwise, bit_xor-bitwise}
use mathlib.Core.Path.{◌≡◌, refl, ap}
use mathlib.Core.Bool.{Bool, true, ◌&&◌}
use zen.Prelude.Tests.{◌==◌}
use native.Mathlib.Nat.{le_refl, pow-suc, one-le-pow}
use native.Mathlib.Omega.{arith}

module _ (rest : ℕ → ℕ) (digit : ℕ → ℕ → ℕ) where
  spare_fuel : (f g x y : ℕ) → x ≤ f → x ≤ g → digits rest digit f x y ≡ digits rest digit g x y
  spare_fuel zero zero x y hf hg = refl
  spare_fuel zero (suc g) zero y hf hg = refl
  spare_fuel zero (suc g) (suc x) y hf hg = absurd (omega arith)
  spare_fuel (suc f) zero zero y hf hg = refl
  spare_fuel (suc f) zero (suc x) y hf hg = absurd (omega arith)
  spare_fuel (suc f) (suc g) zero y hf hg = refl
  spare_fuel (suc f) (suc g) (suc x) y hf hg =
      rw (spare_fuel f g (suc x / 2) (y / 2) (omega arith) (omega arith))

  lowest_digit :
      (x y : ℕ)
      → bitwise rest digit (suc x) y
        ≡ bitwise rest digit (suc x / 2) (y / 2) * 2 + digit (suc x % 2) (y % 2)
  lowest_digit x y =
      omega (arith, spare_fuel x (suc x / 2) (suc x / 2) (y / 2) (omega arith) (le_refl _))

pub or_step : (x y : ℕ) → bit_or x y ≡ bit_or (x / 2) (y / 2) * 2 + max (x % 2) (y % 2)
or_step zero y = simp bit_or-bitwise (omega arith)
or_step (suc x) y = simp bit_or-bitwise (lowest_digit (λ r. r) max x y)

pub and_step : (x y : ℕ) → bit_and x y ≡ bit_and (x / 2) (y / 2) * 2 + min (x % 2) (y % 2)
and_step zero y = simp bit_and-bitwise (omega arith)
and_step (suc x) y = simp bit_and-bitwise (lowest_digit (λ r. 0) min x y)

pub xor_step : (x y : ℕ) → bit_xor x y ≡ bit_xor (x / 2) (y / 2) * 2 + differ (x % 2) (y % 2)
xor_step zero y = simp bit_xor-bitwise (omega arith)
xor_step (suc x) y = simp bit_xor-bitwise (lowest_digit (λ r. r) differ x y)

zero-or : (y : ℕ) → bit_or 0 y ≡ y
zero-or y = bit_or-bitwise 0 y

and-zero_fuel : (n x : ℕ) → x ≤ n → bit_and x 0 ≡ 0
and-zero_fuel n zero h = refl
and-zero_fuel zero (suc x) h = absurd (omega arith)
and-zero_fuel (suc n) (suc x) h =
    omega (arith, and_step (suc x) 0, and-zero_fuel n (suc x / 2) (omega arith))

-- `x & (2 ^ k - 1)` for the masks in use, one digit at a time.
pub and_mask1 : (x : ℕ) → bit_and x 1 ≡ x % 2
and_mask1 x = omega (arith, and_step x 1, and-zero_fuel (x / 2) (x / 2) (le_refl _))

pub and_mask3 : (x : ℕ) → bit_and x 3 ≡ x % 4
and_mask3 x = omega (arith, and_step x 3, and_mask1 (x / 2))

and_mask7 : (x : ℕ) → bit_and x 7 ≡ x % 8
and_mask7 x = omega (arith, and_step x 7, and_mask3 (x / 2))

pub and_mask15 : (x : ℕ) → bit_and x 15 ≡ x % 16
and_mask15 x = omega (arith, and_step x 15, and_mask7 (x / 2))

and_mask31 : (x : ℕ) → bit_and x 31 ≡ x % 32
and_mask31 x = omega (arith, and_step x 31, and_mask15 (x / 2))

pub and_mask63 : (x : ℕ) → bit_and x 63 ≡ x % 64
and_mask63 x = omega (arith, and_step x 63, and_mask31 (x / 2))

pub and_mask127 : (x : ℕ) → bit_and x 127 ≡ x % 128
and_mask127 x = omega (arith, and_step x 127, and_mask63 (x / 2))

pub and_mask255 : (x : ℕ) → bit_and x 255 ≡ x % 256
and_mask255 x = omega (arith, and_step x 255, and_mask127 (x / 2))

scaled-suc : (q k : ℕ) → q * 2 ^ suc k ≡ 2 * (q * 2 ^ k)
scaled-suc q k = omega (arith, ap (λ (p : ℕ). q * p) (pow-suc 2 k))

-- A field above `k` bits is joined to the bits below by a sum.
pub or_low_high : (k low q : ℕ) → low < 2 ^ k → bit_or low (q * 2 ^ k) ≡ low + q * 2 ^ k
or_low_high zero low q h = ground (arith, zero-or q)
or_low_high (suc k) low q h =
    ground
      (arith, or_step low (q * 2 ^ suc k), scaled-suc q k, pow-suc 2 k, or_low_high k (low / 2) q)

or_comm_fuel : (n x y : ℕ) → x + y ≤ n → bit_or x y ≡ bit_or y x
or_comm_fuel n zero zero h = refl
or_comm_fuel zero (suc x) y h = absurd (omega arith)
or_comm_fuel zero zero (suc y) h = absurd (omega arith)
or_comm_fuel (suc n) (suc x) y h =
    omega (
      arith,
      or_step (suc x) y,
      or_step y (suc x),
      or_comm_fuel n (suc x / 2) (y / 2) (omega arith),
    )
or_comm_fuel (suc n) zero y h =
    omega (arith, or_step 0 y, or_step y 0, or_comm_fuel n 0 (y / 2) (omega arith))

pub or_high_low : (k q low : ℕ) → low < 2 ^ k → bit_or (q * 2 ^ k) low ≡ q * 2 ^ k + low
or_high_low k q low h =
    omega (arith, or_comm_fuel _ (q * 2 ^ k) low (le_refl _), or_low_high k low q h)

differ-zero : (x : ℕ) → differ x 0 ≡ x
differ-zero zero = refl
differ-zero (suc x) = refl

differ_one : (d m : ℕ) → d < 2 → m ≡ 1 → differ d m ≡ 1 - d
differ_one zero m h e = omega arith
differ_one (suc zero) m h e = rw e
differ_one (suc (suc d)) m h e = absurd (omega arith)

-- `x ^ (2 ^ k - 1)` flips the `k` low bits.
halved_ones : (k : ℕ) → (2 ^ suc k - 1) / 2 ≡ 2 ^ k - 1
halved_ones k = omega (arith, pow-suc 2 k, one-le-pow k 2)

pub xor_ones : (k x : ℕ) → x < 2 ^ k → bit_xor x (2 ^ k - 1) ≡ 2 ^ k - 1 - x
xor_ones zero zero h = refl
xor_ones zero (suc x) h = absurd (omega arith)
xor_ones (suc k) x h = ground (
  arith,
  xor_step x (2 ^ suc k - 1),
  differ_one (x % 2) ((2 ^ suc k - 1) % 2) (omega arith),
  ap (λ (m : ℕ). bit_xor (x / 2) m) (halved_ones k),
  pow-suc 2 k,
  one-le-pow k 2,
  xor_ones k (x / 2),
)

xor-zero_fuel : (n x : ℕ) → x ≤ n → bit_xor x 0 ≡ x
xor-zero_fuel n zero h = refl
xor-zero_fuel zero (suc x) h = absurd (omega arith)
xor-zero_fuel (suc n) (suc x) h =
    ground (
      arith,
      xor_step (suc x) 0,
      differ-zero (suc x % 2),
      xor-zero_fuel n (suc x / 2) (omega arith),
    )

pub xor-zero : (x : ℕ) → bit_xor x 0 ≡ x
xor-zero x = xor-zero_fuel x x (le_refl _)

-- The top bit of an octet, checked on every octet.
octet_table : ℕ → Bool
octet_table zero = true
octet_table (suc b) = bit_and b 128 == b / 128 * 128 && octet_table b

octet_table_sound : (n b : ℕ) → octet_table n ≡ true → b < n → bit_and b 128 ≡ b / 128 * 128
unfolding octet_table
octet_table_sound zero b h lt = absurd (omega arith)
octet_table_sound (suc n) b h lt = ground (arith, octet_table_sound n b)

pub top_bit : (b : ℕ) → b < 256 → bit_and b 128 ≡ b / 128 * 128
unfolding octet_table
top_bit b h = octet_table_sound 256 b refl h

pub or_top_bit : (b : ℕ) → b < 128 → bit_or b 128 ≡ b + 128
or_top_bit b h = omega (arith, or_low_high 7 b 1 h)
