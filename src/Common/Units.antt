-- ===== src/Common/Units.antt =====
-- Text as a list of code units: its lines, and its parts by position.
use Prim.Native.Char.{code}
use Prim.Native.String.{String}
use Prim.Native.Nat.{ℕ, zero, suc, ◌≤◌, ◌<◌, ◌+◌, ◌-◌, ◌/◌, ◌%◌}
use mathlib.Core.Path.{◌≡◌, refl, ap}
use mathlib.Core.Logic.{◌≢◌}
use mathlib.Core.Bool.{Bool, true, false}
use mathlib.Core.List.{List, [], ◌∷◌, ◌++◌}
use native.Mathlib.Omega.{arith}
use mini_dsh.Common.Tests.{if◌then◌else◌, eqb, ltb}
use mini_dsh.Common.Lists.{length, take, drop, All}

-- The code units (UTF-16) of a text: one for a character below `2 ^ 16`, and a pair for another.
unfoldable pub units : String → List ℕ
units String.[] = []
units (String.◌∷◌ c s) =
    let rest = units s in
    if ltb (code c) 65536
    then code c ∷ rest
    else (55296 + (code c - 65536) / 1024) ∷ (56320 + (code c - 65536) % 1024) ∷ rest

unfoldable pub extend_line : ℕ → List (List ℕ) → List (List ℕ)
extend_line c [] = (c ∷ []) ∷ []
extend_line c (line ∷ lines) = (c ∷ line) ∷ lines

-- `split('\n')`.
unfoldable pub split_lines : List ℕ → List (List ℕ)
unfolding extend_line
split_lines [] = [] ∷ []
split_lines (c ∷ text) =
    let lines = split_lines text in if eqb c 10 then [] ∷ lines else extend_line c lines

-- `join('\n')`.
unfoldable pub join_lines : List (List ℕ) → List ℕ
join_lines [] = []
join_lines (line ∷ []) = line
join_lines (line ∷ other ∷ lines) = line ++ 10 ∷ join_lines (other ∷ lines)

-- `endsWith('\n')`.
unfoldable pub ends_line : List ℕ → Bool
ends_line [] = false
ends_line (c ∷ []) = eqb c 10
ends_line (c ∷ d ∷ text) = ends_line (d ∷ text)

abbrev pub IsOneLine : List ℕ → Type 0
IsOneLine = All (λ c. c ≢ 10)

pub split_lines-line :
    (line text : List ℕ)
    → IsOneLine line
    → split_lines (line ++ 10 ∷ text) ≡ line ∷ split_lines text
unfolding split_lines
split_lines-line [] text h = refl
split_lines-line (c ∷ line) text h = rw (split_lines-line line text h.1) (ground arith)

pub split_lines_one : (line : List ℕ) → IsOneLine line → split_lines line ≡ line ∷ []
unfolding split_lines
split_lines_one [] h = refl
split_lines_one (c ∷ line) h = rw (split_lines_one line h.1) (ground arith)

pub ends_line-append :
    (text tail : List ℕ) → ends_line tail ≡ true → ends_line (text ++ tail) ≡ true
unfolding ends_line
ends_line-append [] tail h = h
ends_line-append (c ∷ []) [] h = ground arith
ends_line-append (c ∷ []) (d ∷ tail) h = h
ends_line-append (c ∷ d ∷ text) tail h = ends_line-append (d ∷ text) tail h

pub ends_line_not :
    (text : List ℕ) (c : ℕ) (tail : List ℕ)
    → IsOneLine (c ∷ tail)
    → ends_line (text ++ c ∷ tail) ≡ false
unfolding ends_line
ends_line_not [] c [] h = ground arith
ends_line_not [] c (d ∷ tail) h = ends_line_not [] d tail h.1
ends_line_not (x ∷ []) c tail h = ends_line_not [] c tail h
ends_line_not (x ∷ y ∷ text) c tail h = ends_line_not (y ∷ text) c tail h

module _ {ℓ} {A : Type ℓ} where
  pub take-append : (xs ys : List A) → take (length xs) (xs ++ ys) ≡ xs
  take-append [] ys = refl
  take-append (x ∷ xs) ys = ap (λ l. x ∷ l) (take-append xs ys)

  pub drop-append : (xs ys : List A) → drop (length xs) (xs ++ ys) ≡ ys
  drop-append [] ys = refl
  drop-append (x ∷ xs) ys = drop-append xs ys

  pub take-append-le : (k : ℕ) (xs ys : List A) → k ≤ length xs → take k (xs ++ ys) ≡ take k xs
  take-append-le zero xs ys h = refl
  take-append-le (suc k) [] ys h = ground (arith, h)
  take-append-le (suc k) (x ∷ xs) ys h = ap (λ l. x ∷ l) (take-append-le k xs ys (omega (arith, h)))

  pub take-ge : (k : ℕ) (xs : List A) → length xs ≤ k → take k xs ≡ xs
  take-ge zero [] h = refl
  take-ge zero (x ∷ xs) h = ground (arith, h)
  take-ge (suc k) [] h = refl
  take-ge (suc k) (x ∷ xs) h = ap (λ l. x ∷ l) (take-ge k xs (omega (arith, h)))

  pub take_some : (k : ℕ) (xs : List A) → 0 < k → 0 < length xs → take k xs ≢ []
  take_some zero xs h l = ground (arith, h)
  take_some (suc k) [] h l = ground (arith, l)
  take_some (suc k) (x ∷ xs) h l = ground arith

  pub All-take : (P : A → Type 0) (k : ℕ) (xs : List A) → All P xs → All P (take k xs)
  All-take P zero xs p = tt
  All-take P (suc k) [] p = tt
  All-take P (suc k) (x ∷ xs) p = (p.0, All-take P k xs p.1)

  pub All-snoc : (P : A → Type 0) (xs : List A) (x : A) → All P xs → P x → All P (xs ++ x ∷ [])
  All-snoc P [] x p q = (q, tt)
  All-snoc P (y ∷ xs) x p q = (p.0, All-snoc P xs x p.1 q)

  pub length-some : (xs : List A) → xs ≢ [] → 0 < length xs
  length-some [] h = ground (arith, h)
  length-some (x ∷ xs) h = omega arith
