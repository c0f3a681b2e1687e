-- ===== src/Prelude/Tables.antt =====
-- Facts about every value of a small range, checked by evaluation.
use Prim.Native.Nat.{ℕ, zero, suc, ◌<◌}
use mathlib.Core.Path.{◌≡◌}
use mathlib.Core.Bool.{Bool, true, ◌&&◌}
use native.Mathlib.Omega.{arith}

unfoldable pub holds_below : (bound : ℕ) (test : ℕ → Bool) → Bool
holds_below zero test = true
holds_below (suc k) test = holds_below k test && test k

pub holds_below-at :
    (bound : ℕ) (test : ℕ → Bool) (value : ℕ)
    → holds_below bound test ≡ true
    → value < bound
    → test value ≡ true
unfolding holds_below
holds_below-at zero test value every lt = absurd (omega arith)
holds_below-at (suc k) test value every lt = ground (arith, holds_below-at k test value)
