-- ===== src/Files/Edit/Offsets.antt =====
-- The occurrences that `exactOffsets` finds.
use mini_dsh.Common.{
  ℕ, zero, suc, ◌+◌, ◌-◌, ◌<◌, ◌≤◌, ◌≡◌, refl, ap, sym, ◌∙◌, true, some, List, [], ◌∷◌, eqb, length,
  take, drop, arith, Bool-cases, Option-cases, inl, inr, All,
}
use mini_dsh.Files.Document.{Splice, starts_with}
use mini_dsh.Files.Document.Splices.{disjoint}
use mini_dsh.Files.Edit.{index_of, offsets_loop, exact_offsets, spans_at}

starts_with-length :
    (text search_text : List ℕ)
    → starts_with text search_text ≡ true
    → length search_text ≤ length text
unfolding starts_with
starts_with-length text [] h = omega arith
starts_with-length [] (d ∷ search_text) h = ground (arith, h)
starts_with-length (c ∷ text) (d ∷ search_text) h = elim (Bool-cases (eqb c d)) [
  | inl same ↦ omega (arith, starts_with-length text search_text (ground (arith, same, h)))
  | inr other ↦ ground (arith, other, h)
]

starts_with-take :
    (text search_text : List ℕ)
    → starts_with text search_text ≡ true
    → take (length search_text) text ≡ search_text
unfolding starts_with
starts_with-take text [] h = refl
starts_with-take [] (d ∷ search_text) h = ground (arith, h)
starts_with-take (c ∷ text) (d ∷ search_text) h = elim (Bool-cases (eqb c d)) [
  | inl same ↦
      let head : c ≡ d = ground (arith, same) in
      rw (head, starts_with-take text search_text (ground (arith, same, h))) refl
  | inr other ↦ ground (arith, other, h)
]

index_of_found :
    (text search_text : List ℕ) (index : ℕ)
    → index_of text search_text ≡ some index
    → starts_with (drop index text) search_text ≡ true
unfolding index_of
index_of_found [] search_text index h = ground (arith, h)
index_of_found (c ∷ text) search_text index h =
    elim (Bool-cases (starts_with (c ∷ text) search_text)) [
      | inl here ↦ let first : index ≡ 0 = ground (arith, here, h) in rw first here
      | inr later ↦ elim (Option-cases (index_of text search_text)) [
        | inl missing ↦ ground (arith, later, missing, h)
        | inr (next, found) ↦
            let behind : index ≡ suc next = ground (arith, later, found, h) in
            rw behind (index_of_found text search_text next found)
      ]
    ]

drop_nil : (k : ℕ) → drop {A = ℕ} k [] ≡ []
drop_nil zero = refl
drop_nil (suc k) = refl

length-drop : (k : ℕ) (text : List ℕ) → length (drop k text) ≡ length text - k
length-drop zero text = omega arith
length-drop (suc k) [] = omega arith
length-drop (suc k) (c ∷ text) = omega (arith, length-drop k text)

index_of-fits :
    (text search_text : List ℕ) (index : ℕ)
    → index_of text search_text ≡ some index
    → 0 < length search_text
    → index + length search_text ≤ length text
index_of-fits text search_text index h some_char =
    let found =
      starts_with-length (drop index text) search_text (index_of_found text search_text index h) in
    omega (arith, found, length-drop index text, some_char)

-- The offsets stand one behind the other from `base` on, `size` apart, and end before `end`.
abbrev pub IsApart : ℕ → ℕ → ℕ → List ℕ → Type 0
IsApart base size end [] = Unit
IsApart base size end (start ∷ offsets) =
    (base ≤ start) × (start + size ≤ end) × IsApart (start + size) size end offsets

drop-drop : (k j : ℕ) (text : List ℕ) → drop j (drop k text) ≡ drop (k + j) text
drop-drop zero j text = let same : 0 + j ≡ j = omega arith in rw same refl
drop-drop (suc k) j [] = let next : suc k + j ≡ suc (k + j) = omega arith in rw next (drop_nil j)
drop-drop (suc k) j (c ∷ text) =
    let next : suc k + j ≡ suc (k + j) = omega arith in rw next (drop-drop k j text)

-- An occurrence of the searched text.
abbrev pub IsOccurrence : List ℕ → List ℕ → ℕ → Type 0
IsOccurrence text search_text start = take (length search_text) (drop start text) ≡ search_text

offsets_loop_lem :
    (fuel base : ℕ) (text search_text : List ℕ)
    → length text < base + fuel
    → base ≤ length text
    → 0 < length search_text
    → (found : List ℕ) × (offsets_loop fuel base (drop base text) search_text ≡ some found)
      × IsApart base (length search_text) (length text) found
      × All (IsOccurrence text search_text) found
unfolding offsets_loop
offsets_loop_lem zero base text search_text f b s = ground (arith, f, b)
offsets_loop_lem (suc fuel) base text search_text f b s =
    elim (Option-cases (index_of (drop base text) search_text)) [
      | inl missing ↦ ([], rw (missing, offsets_loop) refl, tt, tt)
      | inr (index, at) ↦
          let size = length search_text in
          let fits = index_of-fits (drop base text) search_text index at s in
          let left = length-drop base text in
          let end : base + index + size ≤ length text = omega (arith, fits, left, b, s) in
          let behind : drop (index + size) (drop base text) ≡ drop (base + index + size) text =
            drop-drop base (index + size) text ∙ ap (λ n. drop n text) (omega arith) in
          let (found, loop, apart, occur) =
            offsets_loop_lem fuel (base + index + size) text search_text (omega (arith, f, s)) end
              s in
          let here : IsOccurrence text search_text (base + index) =
            ap (take size) (sym (drop-drop base index text))
            ∙ starts_with-take (drop index (drop base text)) search_text
                (index_of_found (drop base text) search_text index at) in
          (
            (base + index) ∷ found,
            rw (at, offsets_loop) (rw (behind, loop) refl),
            (omega arith, end, apart),
            (here, occur),
          )
    ]

-- For a text that is searched for and has a character: the loop of `exactOffsets` ends within one
-- round for each character of the text and one more; the offsets that it finds are occurrences, in
-- order, that end in the text and do not overlap.
pub exact_offsets_lem :
    (text : List ℕ) (c : ℕ) (search_text : List ℕ)
    → let found = exact_offsets text (c ∷ search_text) in
      (offsets_loop (length text + 1) 0 text (c ∷ search_text) ≡ some found)
      × IsApart 0 (length (c ∷ search_text)) (length text) found
      × All (IsOccurrence text (c ∷ search_text)) found
unfolding exact_offsets
exact_offsets_lem text c search_text =
    let (found, loop, apart, occur) =
      offsets_loop_lem (length text + 1) 0 text (c ∷ search_text) (omega arith) (omega arith)
        (omega arith) in
    rw loop (refl, apart, occur)

-- Occurrences that do not overlap make splices that do not overlap.
pub spans_at-disjoint :
    (base size end : ℕ) (offsets : List ℕ) (replacement : List ℕ)
    → IsApart base size end offsets
    → disjoint base (spans_at offsets size replacement) ≡ true
unfolding disjoint spans_at
spans_at-disjoint base size end [] replacement a = refl
spans_at-disjoint base size end (start ∷ offsets) replacement a =
    ground (arith, a.0, spans_at-disjoint (start + size) size end offsets replacement a.2)

-- The splice lies in a text of the length `n`.
abbrev pub IsWithin : ℕ → Splice → Type 0
IsWithin n s = (s.start ≤ s.end) × (s.end ≤ n)

pub spans_at-IsWithin :
    (base size end : ℕ) (offsets : List ℕ) (replacement : List ℕ)
    → IsApart base size end offsets
    → All (IsWithin end) (spans_at offsets size replacement)
unfolding spans_at
spans_at-IsWithin base size end [] replacement a = tt
spans_at-IsWithin base size end (start ∷ offsets) replacement a =
    ((omega arith, a.1), spans_at-IsWithin (start + size) size end offsets replacement a.2)

-- The same for any text that is searched for.
pub exact_offsets-IsApart :
    (text search_text : List ℕ)
    → IsApart 0 (length search_text) (length text) (exact_offsets text search_text)
unfolding exact_offsets
exact_offsets-IsApart text [] = tt
exact_offsets-IsApart text (c ∷ search_text) = (exact_offsets_lem text c search_text).1
