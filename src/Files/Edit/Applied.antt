-- ===== src/Files/Edit/Applied.antt =====
-- A match is applied to the document that it was found in.
use mini_dsh.Common.{
  ℕ, ◌≡◌, refl, ap, sym, ◌∙◌, Bool, true, false, some, List, [], ◌∷◌, String, ltb, leb, arith,
  Bool-cases, inl, inr, All, subst, is_some, length,
}
use mini_dsh.Files.Document.{
  Encoding, document_of, Splice, insert_by_start, sort_by_start, splice_loop, splice_document,
  fold_eol,
}
use mini_dsh.Files.Document.Cuts.{offset_in, raw_offset-document_of}
use mini_dsh.Files.Document.Splices.{
  IsClean, folded_option, disjoint, spliced, offset_in_le, offset_in_lt, offset_in_start,
  splice_document_text,
}
use mini_dsh.Files.Edit.{MatchResult, MatchStrategy, matched, ambiguous, not_found}
use mini_dsh.Files.Edit.Find.{find_edit_match}
use mini_dsh.Files.Edit.Offsets.{IsWithin}
use mini_dsh.Files.Edit.Fitting.{OnMatch, Fits}
use mini_dsh.Files.Edit.Spans.{find_edit_match-Fits}

-- Splices in order stay as they are when they are sorted.
pub sort_by_start_fits :
    (n k : ℕ) (splices : List Splice)
    → disjoint k splices ≡ true
    → All (IsWithin n) splices
    → sort_by_start splices ≡ splices
unfolding sort_by_start insert_by_start disjoint
sort_by_start_fits n k [] d w = refl
sort_by_start_fits n k (s ∷ []) d w = refl
sort_by_start_fits n k (s ∷ t ∷ splices) d w =
    let tail : disjoint s.end (t ∷ splices) ≡ true = unfold disjoint in ground (arith, d) in
    let rest = sort_by_start_fits n s.end (t ∷ splices) tail w.1 in
    let first : leb s.start t.start ≡ true = ground (arith, d, w.0.0) in
    ap (insert_by_start s) rest ∙ rw first refl

module _ (raw : List ℕ) (encoding : Encoding) (bom writable : Bool) (hash : String) where
  splice_loop-is_some :
      (splices : List Splice) (written : List ℕ) (k : ℕ)
      → is_some (
          splice_loop
            (document_of raw encoding bom writable hash)
            splices
            written
            (offset_in raw k))
        ≡ disjoint k splices
  unfolding splice_loop disjoint
  splice_loop-is_some [] written k = refl
  splice_loop-is_some (s ∷ splices) written k =
      let doc = document_of raw encoding bom writable hash in
      let start = raw_offset-document_of raw encoding bom writable hash s.start in
      let end = raw_offset-document_of raw encoding bom writable hash s.end in
      elim (Bool-cases (leb k s.start)) [
        | inl fits ↦
            let forward : ltb (offset_in raw s.start) (offset_in raw k) ≡ false =
              ground (arith, offset_in_le raw k s.start (ground (arith, fits))) in
            rw (start, end, fits, forward) (splice_loop-is_some splices _ s.end)
        | inr over ↦
            let back : ltb (offset_in raw s.start) (offset_in raw k) ≡ true =
              ground (arith, offset_in_lt raw s.start k (ground (arith, over))) in
            rw (start, over, back) refl
      ]

  splice_document-is_some :
      (splices : List Splice)
      → is_some (splice_document (document_of raw encoding bom writable hash) splices)
        ≡ disjoint 0 (sort_by_start splices)
  unfolding splice_document
  splice_document-is_some splices =
      let doc = document_of raw encoding bom writable hash in
      ap (λ n. is_some (splice_loop doc (sort_by_start splices) [] n)) (sym (offset_in_start raw))
      ∙ splice_loop-is_some (sort_by_start splices) [] 0

OnMatch-map :
    (P Q : List Splice → Type 0) (r : MatchResult)
    → ((splices : List Splice) → P splices → Q splices)
    → OnMatch P r
    → OnMatch Q r
OnMatch-map P Q (matched strategy splices) f p = f splices p
OnMatch-map P Q (ambiguous strategy lines) f p = tt
OnMatch-map P Q not_found f p = tt

-- Whatever is searched for in the text of a decoded document, with whatever replacement: if it
-- matches, `spliceDocument` takes the splices of the match and does not throw.
pub edit_never_throws :
    (raw : List ℕ) (encoding : Encoding) (bom writable : Bool) (hash : String)
    (sought replacement : List ℕ) (replace_all : Bool)
    → let doc = document_of raw encoding bom writable hash in
      OnMatch
        (λ splices. is_some (splice_document doc splices) ≡ true)
        (find_edit_match doc.text sought replacement replace_all)
edit_never_throws raw encoding bom writable hash sought replacement replace_all =
    let doc = document_of raw encoding bom writable hash in
    let n = length doc.text in
    OnMatch-map (Fits n) _ _
      (λ splices f.
        splice_document-is_some raw encoding bom writable hash splices
        ∙ ap (disjoint 0) (sort_by_start_fits n 0 splices f.0 f.1)
        ∙ f.0)
      (find_edit_match-Fits doc.text sought replacement replace_all)

-- If a search in the text of a document without lone carriage returns matches with splices whose
-- texts have none either: the text of the file that `spliceDocument` writes is the text of the
-- document with each span replaced by the text of its splice.
edit_text :
    (raw : List ℕ) (encoding : Encoding) (bom writable : Bool) (hash : String)
    (sought replacement : List ℕ) (replace_all : Bool) (strategy : MatchStrategy)
    (splices : List Splice)
    → IsClean (document_of raw encoding bom writable hash).text
    → find_edit_match
        (document_of raw encoding bom writable hash).text
        sought
        replacement
        replace_all
      ≡ matched strategy splices
    → All (λ s. IsClean (fold_eol s.text)) splices
    → let doc = document_of raw encoding bom writable hash in
      folded_option (splice_document doc splices) ≡ some (spliced 0 doc.text splices)
edit_text raw encoding bom writable hash sought replacement replace_all strategy splices c m t =
    let doc = document_of raw encoding bom writable hash in
    let n = length doc.text in
    let f : Fits n splices =
      subst (OnMatch (Fits n)) m (find_edit_match-Fits doc.text sought replacement replace_all) in
    let sorted = sort_by_start_fits n 0 splices f.0 f.1 in
    splice_document_text raw encoding bom writable hash splices c t ∙ rw (sorted, f.0) refl
