-- ===== src/Common/Keys.antt =====
-- A `Set` of texts, in insertion order.
use Prim.Native.Nat.{ℕ, ◌+◌}
use Prim.Native.String.{String}
use mathlib.Core.Path.{◌≡◌, refl}
use mathlib.Core.Bool.{Bool, false, ◌||◌}
use mathlib.Core.List.{List, [], ◌∷◌}
use native.Mathlib.Omega.{arith}
use text.Mathlib.Text.{◌==◌}
use text.Mathlib.TextEquality.{eq_iff}
use mini_dsh.Common.Tests.{if◌then◌else◌}

unfoldable pub mem : String → List String → Bool
mem k [] = false
mem k (j ∷ s) = j == k || mem k s

unfoldable pub add : String → List String → List String
add k [] = k ∷ []
add k (j ∷ s) = if j == k then j ∷ s else j ∷ add k s

unfoldable pub remove : String → List String → List String
remove k [] = []
remove k (j ∷ s) = let rest = remove k s in if j == k then rest else j ∷ rest

pub mem-add : (j k : String) (s : List String) → mem j (add k s) ≡ (k == j || mem j s)
unfolding mem add
mem-add j k [] = refl
mem-add j k (i ∷ s) = ground (arith, eq_iff k j, eq_iff i k, eq_iff i j, mem-add j k s)

pub mem-remove :
    (j k : String) (s : List String) → mem j (remove k s) ≡ (if k == j then false else mem j s)
unfolding mem remove
mem-remove j k [] = ground arith
mem-remove j k (i ∷ s) = ground (arith, eq_iff k j, eq_iff i k, eq_iff i j, mem-remove j k s)

-- How often a text occurs in a list.
unfoldable pub count : String → List String → ℕ
count k [] = 0
count k (j ∷ s) = (if j == k then 1 else 0) + count k s
