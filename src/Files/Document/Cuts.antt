-- ===== src/Files/Document/Cuts.antt =====
-- Where an offset of the folded text cuts the stored text.
use mini_dsh.Common.{
  ℕ, zero, suc, ◌+◌, ◌≡◌, refl, ap, sym, ◌∙◌, ◌≢◌, Bool, true, false, ◌&&◌, List, [], ◌∷◌, ◌++◌,
  eqb, if◌then◌else◌, length, take, drop, arith, Bool-cases, inl, inr, All, String, subst, some,
}
use mini_dsh.Files.Document.{
  starts_lf, fold_eol, unfold_eol, with_eol, LineEnding, crlf, lf, raw_offset, document_of,
  Encoding, search_offset,
}
use mini_dsh.Files.Document.Offsets.{crlf_positions, fold_raw_lem}
use mini_dsh.Files.Document.Search.{
  below, below_none, below-cons, crlf_positions-IsAscending, raw_offset-below, IsAscending,
}

-- The offset of the stored text that an offset of the folded text stands for.
unfoldable pub offset_in : List ℕ → ℕ → ℕ
unfolding starts_lf
offset_in [] j = j
offset_in (c ∷ raw) zero = 0
offset_in (c ∷ raw) (suc j) =
    let inside = offset_in raw (suc j) in
    let next = offset_in raw j in if eqb c 13 && starts_lf raw then suc inside else suc next

offset_in-below :
    (n : ℕ) (raw : List ℕ) (j : ℕ) → j + below (n + j) (crlf_positions n raw) ≡ offset_in raw j
unfolding crlf_positions offset_in
offset_in-below n [] j = unfold below in omega arith
offset_in-below n (c ∷ raw) zero = omega (
  arith,
  below_none n (n + 0) (crlf_positions n (c ∷ raw)) (crlf_positions-IsAscending n (c ∷ raw))
      (omega arith),
)
offset_in-below n (c ∷ raw) (suc j) =
    let shift : n + suc j ≡ suc n + j = omega arith in
    elim (Bool-cases (eqb c 13 && starts_lf raw)) [
      | inl folded ↦
          let inside = offset_in-below n raw (suc j) in
          rw (folded, below-cons n (n + suc j) (crlf_positions n raw)) (ground (arith, inside))
      | inr char ↦
          let next = offset_in-below (suc n) raw j in rw (char, shift) (omega (arith, next))
    ]

-- `rawOffset` of a decoded document.
pub raw_offset-document_of :
    (raw : List ℕ) (encoding : Encoding) (bom writable : Bool) (hash : String) (j : ℕ)
    → raw_offset (document_of raw encoding bom writable hash) j ≡ offset_in raw j
raw_offset-document_of raw encoding bom writable hash j =
    let doc = document_of raw encoding bom writable hash in
    let positions : doc.crlf_at ≡ crlf_positions 0 raw =
      unfold document_of in (fold_raw_lem raw).1 in
    let zero_on : 0 + j ≡ j = omega arith in
    (raw_offset-below doc j (rw positions (crlf_positions-IsAscending 0 raw))).1
    ∙ rw positions
        (ap (λ n. j + below n (crlf_positions 0 raw)) (sym zero_on) ∙ offset_in-below 0 raw j)

starts_lf-take : (k : ℕ) (raw : List ℕ) → starts_lf raw ≡ false → starts_lf (take k raw) ≡ false
unfolding starts_lf
starts_lf-take zero raw h = refl
starts_lf-take (suc k) [] h = refl
starts_lf-take (suc k) (c ∷ raw) h = h

starts_lf-offset_in :
    (j : ℕ) (raw : List ℕ) → starts_lf (take (offset_in raw (suc j)) raw) ≡ starts_lf raw
unfolding starts_lf offset_in
starts_lf-offset_in j [] = refl
starts_lf-offset_in j (c ∷ raw) = ground arith

pub fold_eol-take :
    (raw : List ℕ) (j : ℕ) → fold_eol (take (offset_in raw j) raw) ≡ take j (fold_eol raw)
unfolding fold_eol offset_in
fold_eol-take [] zero = refl
fold_eol-take [] (suc j) = refl
fold_eol-take (c ∷ raw) zero = refl
fold_eol-take (c ∷ raw) (suc j) = elim (Bool-cases (eqb c 13 && starts_lf raw)) [
  | inl folded ↦
      let inside = fold_eol-take raw (suc j) in
      rw (folded, starts_lf-offset_in j raw) (rw folded inside)
  | inr char ↦
      let next = fold_eol-take raw j in
      let no_fold : (eqb c 13 && starts_lf (take (offset_in raw j) raw)) ≡ false =
        ground (arith, char, starts_lf-take (offset_in raw j) raw) in
      rw (char, no_fold) (ap (λ t. c ∷ t) next)
]

pub fold_eol-drop :
    (raw : List ℕ) (j : ℕ) → fold_eol (drop (offset_in raw j) raw) ≡ drop j (fold_eol raw)
unfolding fold_eol offset_in
fold_eol-drop [] zero = refl
fold_eol-drop [] (suc j) = refl
fold_eol-drop (c ∷ raw) zero = refl
fold_eol-drop (c ∷ raw) (suc j) = elim (Bool-cases (eqb c 13 && starts_lf raw)) [
  | inl folded ↦ rw folded (fold_eol-drop raw (suc j))
  | inr char ↦ rw char (fold_eol-drop raw j)
]

drop_nil : (k : ℕ) → drop {A = ℕ} k [] ≡ []
drop_nil zero = refl
drop_nil (suc k) = refl

pub offset_in_add :
    (raw : List ℕ) (k j : ℕ)
    → offset_in raw (k + j) ≡ offset_in raw k + offset_in (drop (offset_in raw k) raw) j
unfolding offset_in
offset_in_add [] k j = rw (drop_nil k) refl
offset_in_add (c ∷ raw) zero j = let same : 0 + j ≡ j = omega arith in rw same (omega arith)
offset_in_add (c ∷ raw) (suc k) j =
    let next : suc k + j ≡ suc (k + j) = omega arith in
    elim (Bool-cases (eqb c 13 && starts_lf raw)) [
      | inl folded ↦
          let inside = ap (offset_in raw) (sym next) ∙ offset_in_add raw (suc k) j in
          rw (next, folded) (omega (arith, inside))
      | inr char ↦ rw (next, char) (omega (arith, offset_in_add raw k j))
    ]

starts_lf-append : (xs ys : List ℕ) → starts_lf xs ≡ true → starts_lf (xs ++ ys) ≡ true
unfolding starts_lf
starts_lf-append [] ys h = ground (arith, h)
starts_lf-append (c ∷ xs) ys h = h

fold_eol_crlf :
    (c : ℕ) (text : List ℕ)
    → (eqb c 13 && starts_lf text) ≡ true
    → fold_eol (c ∷ text) ≡ fold_eol text
unfolding fold_eol
fold_eol_crlf c text h = rw h refl

fold_eol_other :
    (c : ℕ) (text : List ℕ)
    → (eqb c 13 && starts_lf text) ≡ false
    → fold_eol (c ∷ text) ≡ c ∷ fold_eol text
unfolding fold_eol
fold_eol_other c text h = rw h refl

-- Text that folds to text without carriage returns joins what follows it.
pub fold_eol-append :
    (xs ys : List ℕ)
    → All (λ c. c ≢ 13) (fold_eol xs)
    → fold_eol (xs ++ ys) ≡ fold_eol xs ++ fold_eol ys
unfolding fold_eol
fold_eol-append [] ys h = refl
fold_eol-append (c ∷ xs) ys h = elim (Bool-cases (eqb c 13 && starts_lf xs)) [
  | inl folded ↦
      let both : (eqb c 13 && starts_lf (xs ++ ys)) ≡ true =
        ground (arith, folded, starts_lf-append xs ys) in
      let rest = fold_eol-append xs ys (subst (All (λ c. c ≢ 13)) (fold_eol_crlf c xs folded) h) in
      fold_eol_crlf c (xs ++ ys) both
      ∙ rest
      ∙ ap (λ t. t ++ fold_eol ys) (sym (fold_eol_crlf c xs folded))
  | inr char ↦
      let clean = subst (All (λ c. c ≢ 13)) (fold_eol_other c xs char) h in
      let alone : (eqb c 13 && starts_lf (xs ++ ys)) ≡ false = ground (arith, clean.0) in
      fold_eol_other c (xs ++ ys) alone
      ∙ ap (λ t. c ∷ t) (fold_eol-append xs ys clean.1)
      ∙ ap (λ t. t ++ fold_eol ys) (sym (fold_eol_other c xs char))
]

pub fold_eol_clean : (text : List ℕ) → All (λ c. c ≢ 13) text → fold_eol text ≡ text
unfolding fold_eol
fold_eol_clean [] h = refl
fold_eol_clean (c ∷ text) h =
    let char : eqb c 13 ≡ false = ground (arith, h.0) in
    rw char (ap (λ t. c ∷ t) (fold_eol_clean text h.1))

starts_lf-unfold_eol : (text : List ℕ) → starts_lf (unfold_eol text) ≡ false
unfolding starts_lf unfold_eol
starts_lf-unfold_eol [] = refl
starts_lf-unfold_eol (c ∷ text) = ground (arith, starts_lf-unfold_eol text)

fold_eol-unfold_eol : (text : List ℕ) → fold_eol (unfold_eol text) ≡ fold_eol text
unfolding fold_eol unfold_eol
fold_eol-unfold_eol [] = refl
fold_eol-unfold_eol (c ∷ text) = elim (Bool-cases (eqb c 13 && starts_lf text)) [
  | inl folded ↦ rw folded (fold_eol-unfold_eol text)
  | inr char ↦ elim (Bool-cases (eqb c 10)) [
    | inl newline ↦
        let is_newline : c ≡ 10 = ground (arith, newline) in
        rw (char, newline) (unfold starts_lf in rw (fold_eol-unfold_eol text, is_newline) refl)
    | inr other ↦
        let alone = starts_lf-unfold_eol text in
        rw (char, other)
          (fold_eol_other c (unfold_eol text) (ground (arith, alone))
            ∙ ap (λ t. c ∷ t) (fold_eol-unfold_eol text))
  ]
]

-- Text that takes a document's line ending folds as it does without.
pub fold_eol-with_eol :
    (text : List ℕ) (eol : LineEnding)
    → All (λ c. c ≢ 13) (fold_eol text)
    → fold_eol (with_eol text eol) ≡ fold_eol text
unfolding with_eol
fold_eol-with_eol text lf h = fold_eol_clean (fold_eol text) h
fold_eol-with_eol text crlf h = fold_eol-unfold_eol text

pub document_of_text :
    (raw : List ℕ) (encoding : Encoding) (bom writable : Bool) (hash : String)
    → (document_of raw encoding bom writable hash).text ≡ fold_eol raw
unfolding document_of
document_of_text raw encoding bom writable hash = (fold_raw_lem raw).0

-- For every document that a decoder makes and every offset of its text: the binary search of
-- `rawOffset` ends within one round for each folded line ending and one more, at the number of
-- folded line endings before the offset; and the offset that `rawOffset` gives cuts the stored text
-- in two parts whose folded texts are the parts of the text before and behind the offset.
pub raw_offset_cuts :
    (raw : List ℕ) (encoding : Encoding) (bom writable : Bool) (hash : String) (j : ℕ)
    → let doc = document_of raw encoding bom writable hash in
      let size = length doc.crlf_at in
      (search_offset (size + 1) doc.crlf_at j 0 size ≡ some (below j doc.crlf_at))
      × (fold_eol (take (raw_offset doc j) doc.raw) ≡ take j doc.text)
      × (fold_eol (drop (raw_offset doc j) doc.raw) ≡ drop j doc.text)
raw_offset_cuts raw encoding bom writable hash j =
    let doc = document_of raw encoding bom writable hash in
    let positions : doc.crlf_at ≡ crlf_positions 0 raw =
      unfold document_of in (fold_raw_lem raw).1 in
    let same : doc.raw ≡ raw = unfold document_of in refl in
    let at = raw_offset-document_of raw encoding bom writable hash j in
    let text = document_of_text raw encoding bom writable hash in
    (
      (raw_offset-below doc j
          (subst (IsAscending 0) (sym positions) (crlf_positions-IsAscending 0 raw))).0,
      rw (at, same) (fold_eol-take raw j ∙ ap (take j) (sym text)),
      rw (at, same) (fold_eol-drop raw j ∙ ap (drop j) (sym text)),
    )
