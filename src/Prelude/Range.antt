-- ===== src/Prelude/Range.antt =====
-- The numbers from one on.
use Prim.Native.Nat.{ℕ, zero, suc, ◌+◌, ◌≤◌, ◌<◌}
use mathlib.Core.List.{List, [], ◌∷◌}
use myblockchain.Prelude.Lists.{All}
use native.Mathlib.Omega.{arith}

unfoldable pub range : ℕ → ℕ → List ℕ
range a zero = []
range a (suc n) = a ∷ range (a + 1) n

pub All-range : {P : ℕ → Type 0} (a n : ℕ) → ((t : ℕ) → a ≤ t → t < a + n → P t) → All P (range a n)
unfolding range
All-range a zero h = tt
All-range a (suc n) h = (
  h a (omega arith) (omega arith),
  All-range (a + 1) n (λ t low high. h t (omega arith) (omega arith)),
)
