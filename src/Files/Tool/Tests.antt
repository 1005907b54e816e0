-- ===== src/Files/Tool/Tests.antt =====
-- A file with two lines that one conversation reads and edits.
use mini_dsh.Common.{
  ℕ, ◌≡◌, refl, true, false, some, List, [], ◌∷◌, arith, All, if◌then◌else◌, ◌==◌,
}
use mini_dsh.Files.Document.{
  Codec, TextDocument, utf8, document_of, fold_raw, fold_loop, fold_newline, drop_last,
  dominant_eol, decode_document, decode_body, looks_binary, count_control, is_control, starts_with,
  fold_eol, starts_lf, splice_document, splice_loop, sort_by_start, insert_by_start, raw_offset,
  search_offset, with_eol, unfold_eol,
}
use mini_dsh.Files.Document.Splices.{IsClean, spliced}
use mini_dsh.Files.Document.Written.{IsEncoded}
use mini_dsh.Files.Edit.{exact, spans_at}
use mini_dsh.Files.Tool.{
  check, is_observed, edited, execute_edit, edit_file, observe, requirement_for, absent, throws,
  conflict, expected, FileObservations,
}
use mini_dsh.Files.Tool.Observed.{edit_observed, known_after, written_bytes, required_after}
use mini_dsh.Files.Tool.ReadBack.{edit_reads_back}

abbrev ascii : Codec
ascii = record {
  decode_utf16 = λ bytes. bytes;
  decode_utf8 = λ bytes. some bytes;
  decode_lossy = λ bytes. bytes;
  encode_utf16 = λ text. text;
  encode_utf8 = λ text. text;
  hash_bytes = λ bytes. "h";
}

abbrev bytes : List ℕ
bytes = 120 ∷ 13 ∷ 10 ∷ 121 ∷ []

abbrev doc : TextDocument
doc = document_of bytes utf8 false true "h"

doc_decoded : decode_document ascii bytes ≡ some doc
unfolding decode_document decode_body starts_with looks_binary count_control is_control
doc_decoded = refl

doc-IsClean : IsClean doc.text
unfolding document_of fold_raw fold_loop fold_newline drop_last dominant_eol
doc-IsClean = (ground arith, (ground arith, (ground arith, tt)))

-- `y` becomes two lines.
abbrev written : List ℕ
written = 120 ∷ 13 ∷ 10 ∷ 122 ∷ 13 ∷ 10 ∷ 121 ∷ []

y_edited :
    execute_edit ascii (some bytes) (some (check "h")) (121 ∷ []) (122 ∷ 10 ∷ 121 ∷ []) false
    ≡ edited exact (spans_at (2 ∷ []) 1 (122 ∷ 10 ∷ 121 ∷ [])) written
unfolding execute_edit
y_edited = refl

inserted-IsClean : All (λ s. IsClean (fold_eol s.text)) (spans_at (2 ∷ []) 1 (122 ∷ 10 ∷ 121 ∷ []))
unfolding fold_eol starts_lf spans_at
inserted-IsClean = ((ground arith, (ground arith, (ground arith, tt))), tt)

written_spliced : splice_document doc (spans_at (2 ∷ []) 1 (122 ∷ 10 ∷ 121 ∷ [])) ≡ some written
unfolding document_of fold_raw fold_loop fold_newline drop_last dominant_eol splice_document
    splice_loop sort_by_start insert_by_start raw_offset search_offset with_eol unfold_eol fold_eol
    starts_lf spans_at
written_spliced = refl

written-IsEncoded : IsEncoded ascii written
unfolding looks_binary count_control is_control starts_with
written-IsEncoded = record {
  utf16 = refl;
  utf8 = refl;
  plain = refl;
  no_utf8_bom = refl;
  no_utf16le_bom = refl;
  no_utf16be_bom = refl;
}

edit_reads_back_example :
    (is_observed (check "h") doc.hash ≡ true)
    × (read : TextDocument) × (decode_document ascii written ≡ some read)
    × (read.text ≡ spliced 0 doc.text (spans_at (2 ∷ []) 1 (122 ∷ 10 ∷ 121 ∷ [])))
    × (read.encoding ≡ doc.encoding)
    × (read.bom ≡ doc.bom)
edit_reads_back_example =
    edit_reads_back ascii bytes (check "h") (121 ∷ []) (122 ∷ 10 ∷ 121 ∷ []) false doc exact
      (spans_at (2 ∷ []) 1 (122 ∷ 10 ∷ 121 ∷ [])) written written doc_decoded doc-IsClean y_edited
      inserted-IsClean written_spliced written-IsEncoded

-- An edit without a read is refused and observes nothing.
abbrev nothing_seen : FileObservations
nothing_seen = []

unread_refused :
    edit_file ascii (some "s") [] "f" absent (some bytes) (121 ∷ []) (122 ∷ []) false nothing_seen
    ≡ (throws conflict, nothing_seen)
unfolding edit_file
unread_refused = refl

-- A session that has read the file edits it, and may edit it again.
abbrev seen : FileObservations
seen = observe (some "s") "f" "h" []

edit_observed_example :
    let run =
      edit_file ascii
        (some "s")
        ("p" ∷ [])
        "f"
        absent
        (some bytes)
        (121 ∷ [])
        (122 ∷ [])
        false
        seen in
    (expected "s" "f" run.1 ≡ (
      if "s" == "s"
      then if "f" == "f"
        then known_after ascii (written_bytes run.0) (expected "s" "f" seen)
        else expected "s" "f" seen
      else expected "s" "f" seen))
    × (requirement_for (some "s") ("p" ∷ []) run.1 "f" absent
        ≡ required_after ascii
            (written_bytes run.0)
            (requirement_for (some "s") ("p" ∷ []) seen "f" absent))
edit_observed_example =
    edit_observed ascii "s" ("p" ∷ []) "f" absent (some bytes) (121 ∷ []) (122 ∷ []) false seen "s"
      "f"
