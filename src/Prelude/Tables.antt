-- ===== src/Prelude/Tables.antt =====
-- Claims about a range of numbers that evaluation settles, one number after the other.
use Prim.Native.Nat.{ℕ, zero, suc, ◌<◌}
use mathlib.Core.Path.{◌≡◌}
use mathlib.Core.Bool.{Bool, true, ◌&&◌}
use native.Mathlib.Omega.{arith}

unfoldable pub every_below : ℕ → (ℕ → Bool) → Bool
every_below zero test = true
every_below (suc bound) test = test bound && every_below bound test

pub every_below-holds :
    (bound : ℕ) (test : ℕ → Bool) (k : ℕ)
    → every_below bound test ≡ true
    → k < bound
    → test k ≡ true
unfolding every_below
every_below-holds zero test k all lt = absurd (omega arith)
every_below-holds (suc bound) test k all lt = ground (arith, every_below-holds bound test k)
