-- ===== src/Prelude/Bits.antt =====
-- Laws of bit masks, by a test of all bytes.
use mathlib.Core.Bool.{Bool, true, false}
use mathlib.Core.Path.{◌≡◌}
use native.Mathlib.Omega.{arith}
use Prim.Native.Nat.{ℕ, ◌<◌, suc, zero}
use xcplite.Prelude.Tests.{if◌then◌else◌}

module _ (p : ℕ → Bool) where
  -- the test passes for every number that is smaller
  unfoldable pub passes_below : ℕ → Bool
  passes_below zero = true
  passes_below (suc k) = let smaller = passes_below k in if p k then smaller else false

  pub passes_below-at : (n k : ℕ) → passes_below n ≡ true → k < n → p k ≡ true
  unfolding passes_below
  passes_below-at (suc n) k passed lt = ground (arith, passes_below-at n k)
  passes_below-at zero k passed lt = absurd (omega arith)
