-- ===== src/Prelude/Occ.antt =====
-- How often a number occurs in a queue of numbers.
use Prim.Native.Nat.{ℕ, ◌+◌}
use mathlib.Core.Path.{◌≡◌}
use mathlib.Core.List.{List, [], ◌∷◌, ◌++◌}
use native.Mathlib.Omega.{arith}
use znworkload.Prelude.Tests.{◌==◌, if◌then◌else◌}

abbrev pub occ : ℕ → List ℕ → ℕ
occ i [] = 0
occ i (x ∷ xs) = (if x == i then 1 else 0) + occ i xs

pub occ-append : (i : ℕ) (xs ys : List ℕ) → occ i (xs ++ ys) ≡ occ i xs + occ i ys
occ-append i [] ys = omega arith
occ-append i (x ∷ xs) ys = omega (arith, occ-append i xs ys)
