-- ===== src/Files/Document/Splices.antt =====
-- Edits of the folded text, and what `spliceDocument` writes for them.
use mini_dsh.Common.{
  ℕ, zero, suc, ◌+◌, ◌-◌, ◌<◌, ◌≤◌, ◌≡◌, refl, ap, sym, ◌∙◌, ◌≢◌, Bool, true, false, ◌&&◌, List, [],
  ◌∷◌, ◌++◌, ltb, leb, if◌then◌else◌, take, drop, arith, Bool-cases, inl, inr, All, subst, String,
  Option, none, some,
}
use mini_dsh.Common.Units.{All-take}
use mathlib.Core.List.{append_assoc}
use mini_dsh.Files.Document.{
  fold_eol, with_eol, LineEnding, document_of, Encoding, Splice, sort_by_start, insert_by_start,
  splice_loop, splice_document,
}
use mini_dsh.Files.Document.Cuts.{
  offset_in, offset_in_add, raw_offset-document_of, fold_eol-take, fold_eol-drop, fold_eol-append,
  fold_eol-with_eol, document_of_text,
}

abbrev pub IsClean : List ℕ → Type 0
IsClean = All (λ c. c ≢ 13)

-- The text of the file that was written.
unfoldable pub folded_option : Option (List ℕ) → Option (List ℕ)
folded_option none = none
folded_option (some raw) = some (fold_eol raw)

-- Each splice starts where the one before it ends, or later.
unfoldable pub disjoint : ℕ → List Splice → Bool
disjoint k [] = true
disjoint k (s ∷ splices) = leb k s.start && disjoint s.end splices

-- The text from position `k` on, in which the splices are replaced.
unfoldable pub spliced : ℕ → List ℕ → List Splice → List ℕ
spliced k text [] = drop k text
spliced k text (s ∷ splices) =
    take (s.start - k) (drop k text) ++ (fold_eol s.text ++ spliced s.end text splices)

All-drop : {A : Type 0} (P : A → Type 0) (k : ℕ) (xs : List A) → All P xs → All P (drop k xs)
All-drop P zero xs p = p
All-drop P (suc k) [] p = tt
All-drop P (suc k) (x ∷ xs) p = All-drop P k xs p.1

All-append : {A : Type 0} (P : A → Type 0) (xs ys : List A) → All P xs → All P ys → All P (xs ++ ys)
All-append P [] ys p q = q
All-append P (x ∷ xs) ys p q = (p.0, All-append P xs ys p.1 q)

offset_in_some : (raw : List ℕ) (j : ℕ) → 0 < offset_in raw (suc j)
unfolding offset_in
offset_in_some [] j = omega arith
offset_in_some (c ∷ raw) j = ground arith

pub offset_in_le :
    (raw : List ℕ) (k j : ℕ)
    → k ≤ j
    → offset_in raw j ≡ offset_in raw k + offset_in (drop (offset_in raw k) raw) (j - k)
offset_in_le raw k j h =
    let sum : k + (j - k) ≡ j = omega (arith, h) in
    ap (offset_in raw) (sym sum) ∙ offset_in_add raw k (j - k)

pub offset_in_lt : (raw : List ℕ) (k j : ℕ) → k < j → offset_in raw k < offset_in raw j
offset_in_lt raw k j h =
    let gap : j - k ≡ suc (j - k - 1) = omega (arith, h) in
    let rest = drop (offset_in raw k) raw in
    omega (
      arith,
      offset_in_le raw k j (omega (arith, h)),
      ap (offset_in rest) gap,
      offset_in_some rest (j - k - 1),
    )

-- The stored text between two offsets.
fold_eol_slice :
    (raw : List ℕ) (k j : ℕ)
    → k ≤ j
    → fold_eol (take (offset_in raw j - offset_in raw k) (drop (offset_in raw k) raw))
      ≡ take (j - k) (drop k (fold_eol raw))
fold_eol_slice raw k j h =
    let rest = drop (offset_in raw k) raw in
    let len : offset_in raw j - offset_in raw k ≡ offset_in rest (j - k) =
      omega (arith, offset_in_le raw k j h) in
    rw len (fold_eol-take rest (j - k) ∙ ap (take (j - k)) (fold_eol-drop raw k))

-- A piece of the stored text and an inserted text behind a result.
fold_eol_piece :
    (result piece text : List ℕ) (eol : LineEnding)
    → IsClean (fold_eol result)
    → IsClean (fold_eol piece)
    → IsClean (fold_eol text)
    → fold_eol (result ++ (piece ++ with_eol text eol))
      ≡ fold_eol result ++ (fold_eol piece ++ fold_eol text)
fold_eol_piece result piece text eol r p t =
    rw
      (
        fold_eol-append result (piece ++ with_eol text eol) r,
        fold_eol-append piece (with_eol text eol) p,
        fold_eol-with_eol text eol t,
      )
      refl

insert_by_start-All :
    (P : Splice → Type 0) (s : Splice) (splices : List Splice)
    → P s
    → All P splices
    → All P (insert_by_start s splices)
unfolding insert_by_start
insert_by_start-All P s [] p q = (p, tt)
insert_by_start-All P s (t ∷ splices) p q = elim (Bool-cases (leb s.start t.start)) [
  | inl first ↦ rw first (p, q)
  | inr later ↦ rw later (q.0, insert_by_start-All P s splices p q.1)
]

sort_by_start-All :
    (P : Splice → Type 0) (splices : List Splice) → All P splices → All P (sort_by_start splices)
unfolding sort_by_start
sort_by_start-All P [] q = tt
sort_by_start-All P (s ∷ splices) q =
    insert_by_start-All P s (sort_by_start splices) q.0 (sort_by_start-All P splices q.1)

pub offset_in_start : (raw : List ℕ) → offset_in raw 0 ≡ 0
unfolding offset_in
offset_in_start [] = refl
offset_in_start (c ∷ raw) = refl

module _ (raw : List ℕ) (encoding : Encoding) (bom writable : Bool) (hash : String) where
  splice_loop_lem :
      (splices : List Splice) (result : List ℕ) (k : ℕ)
      → IsClean (fold_eol raw)
      → All (λ s. IsClean (fold_eol s.text)) splices
      → IsClean (fold_eol result)
      → folded_option (
          splice_loop (document_of raw encoding bom writable hash) splices result (offset_in raw k))
        ≡ (if disjoint k splices
            then some (fold_eol result ++ spliced k (fold_eol raw) splices)
            else none)
  unfolding splice_loop folded_option disjoint spliced
  splice_loop_lem [] result k c t r =
      let same : (document_of raw encoding bom writable hash).raw ≡ raw =
        unfold document_of in refl in
      rw same (rw (fold_eol-append result (drop (offset_in raw k) raw) r, fold_eol-drop raw k) refl)
  splice_loop_lem (s ∷ splices) result k c t r =
      let doc = document_of raw encoding bom writable hash in
      let same : doc.raw ≡ raw = unfold document_of in refl in
      let start = raw_offset-document_of raw encoding bom writable hash s.start in
      let end = raw_offset-document_of raw encoding bom writable hash s.end in
      elim (Bool-cases (leb k s.start)) [
        | inl fits ↦
            let within : k ≤ s.start = ground (arith, fits) in
            let piece =
              take (offset_in raw s.start - offset_in raw k) (drop (offset_in raw k) raw) in
            let slice = fold_eol_slice raw k s.start within in
            let p : IsClean (fold_eol piece) = subst IsClean (sym slice) (
              All-take (λ c. c ≢ 13) (s.start - k) (drop k (fold_eol raw))
                (All-drop (λ c. c ≢ 13) k (fold_eol raw) c)) in
            let joined = fold_eol_piece result piece s.text doc.eol r p t.0 in
            let clean : IsClean (fold_eol (result ++ (piece ++ with_eol s.text doc.eol))) =
              subst IsClean (sym joined) (
                All-append (λ c. c ≢ 13) (fold_eol result) (fold_eol piece ++ fold_eol s.text) r
                  (All-append (λ c. c ≢ 13) (fold_eol piece) (fold_eol s.text) p t.0)) in
            let rest =
              splice_loop_lem splices (result ++ (piece ++ with_eol s.text doc.eol)) s.end c t.1
                clean in
            let forward : ltb (offset_in raw s.start) (offset_in raw k) ≡ false =
              ground (arith, offset_in_le raw k s.start within) in
            rw (same, start, end, fits, forward)
              (rest ∙ rw (joined, slice) (simp append_assoc refl))
        | inr over ↦
            let back : ltb (offset_in raw s.start) (offset_in raw k) ≡ true =
              ground (arith, offset_in_lt raw s.start k (ground (arith, over))) in
            rw (start, over, back) refl
      ]

  -- For a document without lone carriage returns and inserted texts without them: `spliceDocument`
  -- throws exactly if, sorted by their start, some splice starts before the end of the one before
  -- it; otherwise the text of the stored result is the text of the document with the splices
  -- replaced by their texts.
  pub splice_document_text :
      (splices : List Splice)
      → IsClean (document_of raw encoding bom writable hash).text
      → All (λ s. IsClean (fold_eol s.text)) splices
      → let doc = document_of raw encoding bom writable hash in
        let sorted = sort_by_start splices in
        folded_option (splice_document doc splices)
        ≡ (if disjoint 0 sorted then some (spliced 0 doc.text sorted) else none)
  unfolding splice_document
  splice_document_text splices c t =
      let text = document_of_text raw encoding bom writable hash in
      let lem =
        splice_loop_lem (sort_by_start splices) [] 0 (subst IsClean text c)
          (sort_by_start-All (λ s. IsClean (fold_eol s.text)) splices t) (unfold fold_eol in tt) in
      let empty : fold_eol [] ≡ [] = unfold fold_eol in refl in
      let doc = document_of raw encoding bom writable hash in
      let sorted = sort_by_start splices in
      ap (λ n. folded_option (splice_loop doc sorted [] n)) (sym (offset_in_start raw))
      ∙ lem
      ∙ ap (λ t. if disjoint 0 sorted then some (t ++ spliced 0 (fold_eol raw) sorted) else none)
          empty
      ∙ ap (λ t. if disjoint 0 sorted then some (spliced 0 t sorted) else none) (sym text)
