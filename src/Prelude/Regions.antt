-- ===== src/Prelude/Regions.antt =====
-- Regions of memory, by their address and size.
use Prim.Native.Nat.{ℕ, ◌+◌, ◌≤◌}
use mathlib.Core.List.{List, [], ◌∷◌}
use native.Mathlib.Omega.{arith}

-- Every region begins at `low` or behind it, each ends before the next begins, and the last one
-- ends at `high` or before it.
abbrev pub Ascending : ℕ → ℕ → List (ℕ × ℕ) → Type 0
Ascending low high [] = low ≤ high
Ascending low high ((a, n) ∷ rs) = (low ≤ a) × Ascending (a + n) high rs

pub Ascending-weaken :
    (low low' high : ℕ) (rs : List (ℕ × ℕ))
    → low ≤ low'
    → Ascending low' high rs
    → Ascending low high rs
Ascending-weaken low low' high [] h r = omega arith
Ascending-weaken low low' high ((a, n) ∷ rs) h (p, r) = (omega arith, r)
