-- ===== src/Base/Tables.antt =====
-- Facts about all small numbers, by evaluation at each of them.
use Prim.Native.Nat.{ℕ, zero, suc, ◌<◌}
use mathlib.Core.Path.{◌≡◌}
use mathlib.Core.Bool.{Bool, true, ◌&&◌}
use native.Mathlib.Omega.{arith}

-- The test holds of every number below the bound.
unfoldable pub holds_below : ℕ → (ℕ → Bool) → Bool
holds_below zero test = true
holds_below (suc n) test = test n && holds_below n test

pub holds_below_at :
    (bound : ℕ) (test : ℕ → Bool)
    → holds_below bound test ≡ true
    → (n : ℕ) → n < bound
    → test n ≡ true
unfolding holds_below
holds_below_at zero test h n below = absurd (omega arith)
holds_below_at (suc bound) test h n below =
    ground (arith, holds_below_at bound test (ground arith) n)
