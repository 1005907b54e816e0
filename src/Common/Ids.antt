-- ===== src/Common/Ids.antt =====
-- Lists of numbers that stand for registrations.
use Prim.Native.Nat.{ℕ, ◌+◌}
use mathlib.Core.Path.{◌≡◌, refl}
use mathlib.Core.Bool.{Bool, true, false}
use mathlib.Core.List.{List, [], ◌∷◌, ◌++◌}
use native.Mathlib.Omega.{arith}
use mini_dsh.Common.Tests.{if◌then◌else◌, eqb}

unfoldable pub mem : ℕ → List ℕ → Bool
mem id [] = false
mem id (x ∷ ids) = let rest = mem id ids in if eqb x id then true else rest

-- How often a number occurs.
unfoldable pub count : ℕ → List ℕ → ℕ
count id [] = 0
count id (x ∷ ids) = (if eqb x id then 1 else 0) + count id ids

pub count_snoc :
    (id x : ℕ) (ids : List ℕ)
    → count id (ids ++ x ∷ []) ≡ (if eqb x id then 1 else 0) + count id ids
unfolding count
count_snoc id x [] = refl
count_snoc id x (y ∷ ids) = omega (arith, count_snoc id x ids)
