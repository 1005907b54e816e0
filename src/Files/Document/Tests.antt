-- ===== src/Files/Document/Tests.antt =====
-- A document with mixed line endings: `a`, a folded line ending, `b`, a bare one, and `c`.
use mini_dsh.Common.{
  ℕ, ◌+◌, ◌≡◌, refl, ◌≢◌, true, false, none, some, List, [], ◌∷◌, arith, take, drop, length, All,
  if◌then◌else◌,
}
use mini_dsh.Files.Document.{
  Codec, TextDocument, utf8, Splice, document_of, fold_raw, fold_loop, fold_newline, drop_last,
  dominant_eol, raw_offset, search_offset, splice_document, splice_loop, sort_by_start,
  insert_by_start, fold_eol, starts_lf, with_eol, decode_document, encode_for_write, looks_binary,
  count_control, is_control, starts_with,
}
use mini_dsh.Files.Document.Search.{below}
use mini_dsh.Files.Document.Cuts.{raw_offset_cuts}
use mini_dsh.Files.Document.Splices.{
  IsClean, folded_option, disjoint, spliced, splice_document_text,
}
use mini_dsh.Files.Document.Written.{IsEncoded, has_mark, encode_for_write_lem}

abbrev raw : List ℕ
raw = 97 ∷ 13 ∷ 10 ∷ 98 ∷ 10 ∷ 99 ∷ []

abbrev doc : TextDocument
doc = document_of raw utf8 false true "h"

doc_text : doc.text ≡ 97 ∷ 10 ∷ 98 ∷ 10 ∷ 99 ∷ []
unfolding document_of fold_raw fold_loop fold_newline drop_last dominant_eol
doc_text = refl

raw_offset_cuts_example :
    let size = length doc.crlf_at in
    (search_offset (size + 1) doc.crlf_at 3 0 size ≡ some (below 3 doc.crlf_at))
    × (fold_eol (take (raw_offset doc 3) doc.raw) ≡ take 3 doc.text)
    × (fold_eol (drop (raw_offset doc 3) doc.raw) ≡ drop 3 doc.text)
raw_offset_cuts_example = raw_offset_cuts raw utf8 false true "h" 3

-- `b` becomes a line of its own with `d`, and `c` goes.
abbrev splices : List Splice
splices =
    record { start = 4; end = 5; text = [] }
    ∷ record { start = 2; end = 3; text = 98 ∷ 10 ∷ 100 ∷ [] }
    ∷ []

splices_written : splice_document doc splices ≡ some (97 ∷ 13 ∷ 10 ∷ 98 ∷ 10 ∷ 100 ∷ 10 ∷ [])
unfolding document_of fold_raw fold_loop fold_newline drop_last dominant_eol splice_document
    splice_loop sort_by_start insert_by_start raw_offset search_offset with_eol fold_eol starts_lf
splices_written = refl

doc-IsClean : IsClean doc.text
unfolding document_of fold_raw fold_loop fold_newline drop_last dominant_eol
doc-IsClean = (ground arith, (ground arith, (ground arith, (ground arith, (ground arith, tt)))))

splices-IsClean : All (λ s. IsClean (fold_eol s.text)) splices
unfolding fold_eol starts_lf
splices-IsClean = (tt, ((ground arith, (ground arith, (ground arith, tt))), tt))

splice_document_text_example :
    let sorted = sort_by_start splices in
    folded_option (splice_document doc splices)
    ≡ (if disjoint 0 sorted then some (spliced 0 doc.text sorted) else none)
splice_document_text_example =
    splice_document_text raw utf8 false true "h" splices doc-IsClean splices-IsClean

abbrev ascii : Codec
ascii = record {
  decode_utf16 = λ bytes. bytes;
  decode_utf8 = λ bytes. some bytes;
  decode_lossy = λ bytes. bytes;
  encode_utf16 = λ text. text;
  encode_utf8 = λ text. text;
  hash_bytes = λ bytes. "h";
}

abbrev written : List ℕ
written = 100 ∷ 10 ∷ []

written-IsEncoded : IsEncoded ascii (with_eol written doc.eol)
unfolding document_of fold_raw fold_loop fold_newline drop_last dominant_eol with_eol fold_eol
    starts_lf looks_binary count_control is_control starts_with
written-IsEncoded = record {
  utf16 = refl;
  utf8 = refl;
  plain = refl;
  no_utf8_bom = refl;
  no_utf16le_bom = refl;
  no_utf16be_bom = refl;
}

marked : has_mark doc.encoding doc.bom ≡ true
unfolding document_of has_mark
marked = refl

written_has_no_cr : All (λ c. c ≢ 13) (fold_eol written)
unfolding fold_eol starts_lf
written_has_no_cr = (ground arith, (ground arith, tt))

encode_for_write_lem_example :
    (read : TextDocument) × (decode_document ascii (encode_for_write ascii written (some doc))
      ≡ some read)
    × (read.text ≡ fold_eol written)
    × (read.encoding ≡ doc.encoding)
    × (read.bom ≡ doc.bom)
    × (read.writable ≡ true)
encode_for_write_lem_example =
    encode_for_write_lem ascii written doc written-IsEncoded marked written_has_no_cr
