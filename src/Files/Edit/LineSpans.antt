-- ===== src/Files/Edit/LineSpans.antt =====
-- The lines of a text and the span of a block of lines lie in the text.
use mini_dsh.Common.{
  ℕ, zero, suc, ◌+◌, ◌<◌, ◌≤◌, ◌≡◌, Bool, some, List, [], ◌∷◌, map, eqb, length, get_elem?, arith,
  Bool-cases, Option-cases, inl, inr, All, or_else,
}
use mini_dsh.Files.Document.Search.{IsAscending, IsAscending-weaken}
use mini_dsh.Files.Edit.{newlines, line_starts, LineBlock, line_splice, span_end}
use mini_dsh.Files.Edit.Offsets.{IsWithin}

-- The lines start at ascending positions, none behind the end of the text.
newlines-IsAscending : (n : ℕ) (text : List ℕ) → IsAscending (suc n) (map suc (newlines n text))
unfolding newlines
newlines-IsAscending n [] = tt
newlines-IsAscending n (c ∷ text) = elim (Bool-cases (eqb c 10)) [
  | inl newline ↦ rw newline (omega arith, newlines-IsAscending (suc n) text)
  | inr other ↦ rw other (
      IsAscending-weaken (suc n) (map suc (newlines (suc n) text))
        (newlines-IsAscending (suc n) text))
]

newlines_within :
    (n end : ℕ) (text : List ℕ)
    → n + length text ≤ end
    → All (λ p. p ≤ end) (map suc (newlines n text))
unfolding newlines
newlines_within n end [] h = tt
newlines_within n end (c ∷ text) h =
    let rest = newlines_within (suc n) end text (omega (arith, h)) in
    elim (Bool-cases (eqb c 10)) [
      | inl newline ↦ rw newline (omega (arith, h), rest)
      | inr other ↦ rw other rest
    ]

line_starts-IsAscending : (text : List ℕ) → IsAscending 0 (line_starts text)
unfolding line_starts
line_starts-IsAscending text = (omega arith, newlines-IsAscending 0 text)

line_starts_within : (text : List ℕ) → All (λ p. p ≤ length text) (line_starts text)
unfolding line_starts
line_starts_within text = (omega arith, newlines_within 0 (length text) text (omega arith))

get_elem?-All :
    (P : ℕ → Type 0) (positions : List ℕ) (i d : ℕ)
    → All P positions
    → P d
    → P (or_else (get_elem? positions i) d)
get_elem?-All P [] i d p q = q
get_elem?-All P (x ∷ positions) zero d p q = p.0
get_elem?-All P (x ∷ positions) (suc i) d p q = get_elem?-All P positions i d p.1 q

get_elem?_ge :
    (n i b : ℕ) (positions : List ℕ)
    → IsAscending n positions
    → get_elem? positions i ≡ some b
    → n ≤ b
get_elem?_ge n i b [] v h = ground (arith, h)
get_elem?_ge n zero b (x ∷ positions) v h = ground (arith, h, v.0)
get_elem?_ge n (suc i) b (x ∷ positions) v h =
    omega (arith, v.0, get_elem?_ge (suc x) i b positions v.1 h)

-- A later line starts behind an earlier one.
get_elem?_lt :
    (n i j b d : ℕ) (positions : List ℕ)
    → IsAscending n positions
    → get_elem? positions j ≡ some b
    → i < j
    → or_else (get_elem? positions i) d < b
get_elem?_lt n i j b d [] v h l = ground (arith, h)
get_elem?_lt n i zero b d (x ∷ positions) v h l = ground (arith, l)
get_elem?_lt n zero (suc j) b d (x ∷ positions) v h l = get_elem?_ge (suc x) j b positions v.1 h
get_elem?_lt n (suc i) (suc j) b d (x ∷ positions) v h l =
    get_elem?_lt (suc x) i j b d positions v.1 h (omega (arith, l))

get_elem?_within :
    (n i b : ℕ) (positions : List ℕ)
    → All (λ p. p ≤ n) positions
    → get_elem? positions i ≡ some b
    → b ≤ n
get_elem?_within n i b positions p h =
    let bound = get_elem?-All (λ p. p ≤ n) positions i 0 p (omega arith) in ground (arith, bound, h)

pub line_splice-IsWithin :
    (text replacement : List ℕ) (block : LineBlock) (consumes_newline : Bool)
    → 0 < block.count
    → IsWithin
        (length text)
        (line_splice text (line_starts text) block consumes_newline replacement)
unfolding line_splice span_end
line_splice-IsWithin text replacement block consumes_newline c =
    let starts = line_starts text in
    let within = line_starts_within text in
    let next = block.start_line + block.count in
    elim (Option-cases (get_elem? starts next)) [
      | inl last ↦
          let start =
            get_elem?-All (λ p. p ≤ length text) starts block.start_line (length text) within
              (omega arith) in
          rw last (start, omega arith)
      | inr (b, at) ↦
          let later =
            get_elem?_lt 0 block.start_line next b (length text) starts
              (line_starts-IsAscending text) at (omega (arith, c)) in
          let bound = get_elem?_within (length text) next b starts within at in
          rw at (ground (arith, later), ground (arith, bound))
    ]
