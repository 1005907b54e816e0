-- ===== src/Files/Edit/Fitting.antt =====
-- What it means that the splices of a match fit a text, and the results that do.
use mini_dsh.Common.{
  ℕ, ◌≡◌, Bool, true, false, not, ◌&&◌, List, [], ◌∷◌, ltb, if◌then◌else◌, length, arith,
  Bool-cases, inl, inr, All,
}
use mini_dsh.Files.Document.{Splice}
use mini_dsh.Files.Document.Splices.{disjoint}
use mini_dsh.Files.Edit.{MatchStrategy, MatchResult, matched, ambiguous, not_found, result}
use mini_dsh.Files.Edit.Find.{unless_empty}
use mini_dsh.Files.Edit.Offsets.{IsWithin}

-- A property of the splices of a match.
abbrev pub OnMatch : (List Splice → Type 0) → MatchResult → Type 0
OnMatch P (matched strategy splices) = P splices
OnMatch P (ambiguous strategy lines) = Unit
OnMatch P not_found = Unit

-- The splices lie in a text of the length `n`, and each starts where the one before ends, or later.
abbrev pub Fits : ℕ → List Splice → Type 0
Fits n splices = (disjoint 0 splices ≡ true) × All (IsWithin n) splices

pub result-Fits :
    (n : ℕ) (text : List ℕ) (strategy : MatchStrategy) (spans : List Splice) (replace_all : Bool)
    → Fits n spans
    → OnMatch (Fits n) (result text strategy spans replace_all)
unfolding result
result-Fits n text strategy [] replace_all f = tt
result-Fits n text strategy (s ∷ spans) replace_all f =
    elim (Bool-cases (ltb 0 (length spans) && not replace_all)) [
      | inl several ↦ rw several tt
      | inr one ↦ rw one f
    ]

-- A strategy that wants one place.
pub result_one-Fits :
    (n : ℕ) (text : List ℕ) (strategy : MatchStrategy) (spans : List Splice)
    → All (IsWithin n) spans
    → OnMatch (Fits n) (result text strategy spans false)
unfolding result disjoint
result_one-Fits n text strategy [] w = tt
result_one-Fits n text strategy (s ∷ []) w = (ground arith, w)
result_one-Fits n text strategy (s ∷ t ∷ spans) w =
    let several : ltb 0 (length (t ∷ spans)) ≡ true = ground arith in rw several tt

module _ {ℓ} {A : Type ℓ} where
  pub unless_empty-OnMatch :
      (P : List Splice → Type 0) (items : List A) (found fallback : MatchResult)
      → OnMatch P found
      → OnMatch P fallback
      → OnMatch P (unless_empty items found fallback)
  unfolding unless_empty
  unless_empty-OnMatch P [] found fallback f g = g
  unless_empty-OnMatch P (x ∷ items) found fallback f g = f

pub if-OnMatch :
    (P : List Splice → Type 0) (b : Bool) (found fallback : MatchResult)
    → OnMatch P found
    → OnMatch P fallback
    → OnMatch P (if b then found else fallback)
if-OnMatch P true found fallback f g = f
if-OnMatch P false found fallback f g = g
