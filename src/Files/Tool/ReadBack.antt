-- ===== src/Files/Tool/ReadBack.antt =====
-- A file that the `Edit` tool has edited is read again.
use mini_dsh.Common.{
  ℕ, ◌≡◌, refl, ap, sym, ◌∙◌, Bool, true, false, not, Option, none, some, List, [], ◌∷◌,
  if◌then◌else◌, arith, All, Bool-cases, inl, inr, subst, length,
}
use mini_dsh.Files.Document.{
  Codec, TextDocument, decode_document, document_of, encode_raw, splice_document, fold_eol, Splice,
  sort_by_start,
}
use mini_dsh.Files.Document.Cuts.{document_of_text}
use mini_dsh.Files.Document.Splices.{
  IsClean, folded_option, disjoint, spliced, splice_document_text,
}
use mini_dsh.Files.Document.Written.{IsEncoded, has_mark, decode-encode_raw}
use mini_dsh.Files.Edit.{MatchStrategy, exact, MatchResult, matched, ambiguous, not_found}
use mini_dsh.Files.Edit.Lines.{is_blank, same_text}
use mini_dsh.Files.Edit.Find.{find_edit_match}
use mini_dsh.Files.Edit.Fitting.{OnMatch, Fits}
use mini_dsh.Files.Edit.Spans.{find_edit_match-Fits}
use mini_dsh.Files.Edit.Applied.{sort_by_start_fits}
use mini_dsh.Files.Tool.{
  ObservationRequirement, is_observed, EditError, EditOutcome, throws, created, edited, write_edit,
  apply_match, whole_splice, edit_document, edit_decoded, edit_current, execute_edit, conflict,
  not_writable, no_change,
}
use mini_dsh.Files.Tool.Decoded.{IsDecoded, OnDocument, decode_document-OnDocument}

-- An edit that was made: its splices fit the text and made the bytes that were written.
record IsEdit (codec : Codec) (doc : TextDocument) (splices : List Splice) (written : List ℕ)
    : Type 0 where
  fits : Fits (length doc.text) splices
  raw : List ℕ
  from : splice_document doc splices ≡ some raw
  to : written ≡ encode_raw codec raw doc.encoding doc.bom

-- A property of an edit that was made.
OnEdit : (List Splice → List ℕ → Type 0) → EditOutcome → Type 0
OnEdit P (throws error) = Unit
OnEdit P (created bytes) = Unit
OnEdit P (edited strategy splices written) = P splices written

throws-OnEdit : (P : List Splice → List ℕ → Type 0) (error : EditError) → OnEdit P (throws error)
unfolding OnEdit
throws-OnEdit P error = tt

if-OnEdit :
    (P : List Splice → List ℕ → Type 0) (b : Bool) (x y : EditOutcome)
    → OnEdit P x
    → OnEdit P y
    → OnEdit P (if b then x else y)
if-OnEdit P true x y f g = f
if-OnEdit P false x y f g = g

OnEdit-map :
    (P Q : List Splice → List ℕ → Type 0) (o : EditOutcome)
    → ((splices : List Splice) (written : List ℕ) → P splices written → Q splices written)
    → OnEdit P o
    → OnEdit Q o
unfolding OnEdit
OnEdit-map P Q (throws error) f p = tt
OnEdit-map P Q (created bytes) f p = tt
OnEdit-map P Q (edited strategy splices written) f p = f splices written p

module _ (codec : Codec) (doc : TextDocument) where
  write_edit-OnEdit :
      (strategy : MatchStrategy) (splices : List Splice) (o : Option (List ℕ))
      → Fits (length doc.text) splices
      → splice_document doc splices ≡ o
      → OnEdit (IsEdit codec doc) (write_edit codec doc strategy splices o)
  unfolding write_edit OnEdit
  write_edit-OnEdit strategy splices none f e = tt
  write_edit-OnEdit strategy splices (some raw) f e = record {
    fits = f;
    raw = raw;
    from = e;
    to = refl;
  }

  apply_match-OnEdit :
      (m : MatchResult)
      → OnMatch (Fits (length doc.text)) m
      → OnEdit (IsEdit codec doc) (apply_match codec doc m)
  unfolding apply_match
  apply_match-OnEdit (matched strategy splices) f =
      write_edit-OnEdit strategy splices (splice_document doc splices) f refl
  apply_match-OnEdit (ambiguous strategy lines) f = unfold OnEdit in tt
  apply_match-OnEdit not_found f = unfold OnEdit in tt

  edit_document-OnEdit :
      (old new : List ℕ) (replace_all : Bool)
      → OnEdit (IsEdit codec doc) (edit_document codec doc old new replace_all)
  unfolding edit_document
  edit_document-OnEdit [] new replace_all = elim (Bool-cases (is_blank doc.text)) [
    | inl blank ↦ rw blank (
        apply_match-OnEdit (matched exact (whole_splice codec doc new))
          (unfold whole_splice disjoint in (ground arith, ((omega arith, omega arith), tt))))
    | inr full ↦ rw full (unfold OnEdit in tt)
  ]
  edit_document-OnEdit (c ∷ old) new replace_all =
      apply_match-OnEdit (find_edit_match doc.text (c ∷ old) new replace_all)
        (find_edit_match-Fits doc.text (c ∷ old) new replace_all)

  edit_decoded-OnEdit :
      (requirement : ObservationRequirement) (old new : List ℕ) (replace_all : Bool)
      → OnEdit
          (λ splices written.
            IsEdit codec doc splices written × (is_observed requirement doc.hash ≡ true))
          (edit_decoded codec (some doc) (some requirement) old new replace_all)
  unfolding edit_decoded
  edit_decoded-OnEdit requirement old new replace_all =
      let P = λ (splices : List Splice) (written : List ℕ).
        IsEdit codec doc splices written × (is_observed requirement doc.hash ≡ true) in
      elim (Bool-cases (is_observed requirement doc.hash)) [
        | inr unseen ↦ rw unseen (unfold OnEdit in tt)
        | inl seen ↦
            let rest = edit_document codec doc old new replace_all in
            if-OnEdit P (not (is_observed requirement doc.hash)) (throws conflict)
              (if not doc.writable then throws not_writable else rest) (throws-OnEdit P conflict)
              (if-OnEdit P (not doc.writable) (throws not_writable) rest
                (throws-OnEdit P not_writable)
                (OnEdit-map (IsEdit codec doc) P rest (λ splices written e. (e, seen))
                  (edit_document-OnEdit old new replace_all)))
      ]

some-cancel : (x y : List ℕ) → some x ≡ some y → x ≡ y
some-cancel x y e = ground (arith, e)

-- The folded text of what `spliceDocument` makes of a decoded document.
splice_decoded :
    (doc : TextDocument) (splices : List Splice) (raw : List ℕ)
    → IsDecoded doc
    → IsClean doc.text
    → All (λ s. IsClean (fold_eol s.text)) splices
    → Fits (length doc.text) splices
    → splice_document doc splices ≡ some raw
    → fold_eol raw ≡ spliced 0 doc.text splices
unfolding folded_option
splice_decoded doc splices raw d c t f e =
    let sorted = sort_by_start_fits (length doc.text) 0 splices f.0 f.1 in
    let all : folded_option (splice_document doc splices) ≡ some (spliced 0 doc.text splices) =
      subst
        (λ x.
          IsClean x.text
          → folded_option (splice_document x splices) ≡ (
              if disjoint 0 (sort_by_start splices)
              then some (spliced 0 x.text (sort_by_start splices))
              else none))
        (sym d.same)
        (λ k. splice_document_text d.raw d.encoding d.bom d.writable d.hash splices k t) c
      ∙ rw (sorted, f.0) refl in
    some-cancel (fold_eol raw) (spliced 0 doc.text splices) (ap folded_option (sym e) ∙ all)

-- An edit of a file that decodes to a document without lone carriage returns, with inserted texts
-- without them, was made and wrote some bytes, and the new stored text is one that the codec encodes.
-- Then the conversation had seen the bytes that were there, as far as it has to, and the bytes that
-- were written decode to a document with the text of the old one in which the spans are replaced,
-- in the same encoding and with the same byte order mark.
pub edit_reads_back :
    (codec : Codec) (bytes : List ℕ) (requirement : ObservationRequirement) (old new : List ℕ)
    (replace_all : Bool) (doc : TextDocument) (strategy : MatchStrategy) (splices : List Splice)
    (written raw : List ℕ)
    → decode_document codec bytes ≡ some doc
    → IsClean doc.text
    → execute_edit codec (some bytes) (some requirement) old new replace_all
      ≡ edited strategy splices written
    → All (λ s. IsClean (fold_eol s.text)) splices
    → splice_document doc splices ≡ some raw
    → IsEncoded codec raw
    → (is_observed requirement doc.hash ≡ true)
      × (read : TextDocument) × (decode_document codec written ≡ some read)
      × (read.text ≡ spliced 0 doc.text splices)
      × (read.encoding ≡ doc.encoding)
      × (read.bom ≡ doc.bom)
edit_reads_back codec bytes requirement old new replace_all doc strategy splices written raw h c m t
      e k =
    let P = λ (splices : List Splice) (written : List ℕ).
      IsEdit codec doc splices written × (is_observed requirement doc.hash ≡ true) in
    let d : IsDecoded doc = subst OnDocument h (decode_document-OnDocument codec bytes) in
    let all : OnEdit P (execute_edit codec (some bytes) (some requirement) old new replace_all) =
      unfold execute_edit edit_current in
      if-OnEdit P (same_text (fold_eol old) (fold_eol new)) (throws no_change)
        (edit_decoded codec (decode_document codec bytes) (some requirement) (fold_eol old)
          (fold_eol new) replace_all)
        (throws-OnEdit P no_change)
        (rw h
          (edit_decoded-OnEdit codec doc requirement (fold_eol old) (fold_eol new) replace_all)) in
    let made : P splices written = unfold OnEdit in subst (OnEdit P) m all in
    let edit = made.0 in
    let same : raw ≡ edit.raw = some-cancel raw edit.raw (sym e ∙ edit.from) in
    let bytes_written : written ≡ encode_raw codec raw doc.encoding doc.bom =
      edit.to ∙ ap (λ r. encode_raw codec r doc.encoding doc.bom) (sym same) in
    let marked : has_mark doc.encoding doc.bom ≡ true =
      subst (λ x. has_mark x.encoding x.bom ≡ true) (sym d.same) (unfold document_of in d.marked) in
    let hash = codec.hash_bytes (encode_raw codec raw doc.encoding doc.bom) in
    (
      made.1,
      document_of raw doc.encoding doc.bom true hash,
      ap (decode_document codec) bytes_written
          ∙ decode-encode_raw codec raw doc.encoding doc.bom k marked,
      document_of_text raw doc.encoding doc.bom true hash
          ∙ splice_decoded doc splices raw d c t edit.fits e,
      unfold document_of in refl,
      unfold document_of in refl,
    )
