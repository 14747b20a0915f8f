-- ===== src/Base/Fuel.antt =====
-- Fuel for loops that start over: a number of rounds of a bounded length each.
use Prim.Native.Nat.{ℕ, zero, suc, ◌+◌, ◌≤◌}
use native.Mathlib.Omega.{arith}

unfoldable pub budget : ℕ → ℕ → ℕ
budget zero size = 0
budget (suc rounds) size = size + budget rounds size

pub budget_mono : (a b size : ℕ) → a ≤ b → budget a size ≤ budget b size
unfolding budget
budget_mono zero b size h = omega arith
budget_mono (suc a) zero size h = absurd (omega arith)
budget_mono (suc a) (suc b) size h = omega (arith, budget_mono a b size (omega arith))
