-- ===== src/Files/Document/Written.antt =====
-- A text that is written with the format of a document, and read again.
use mini_dsh.Common.{ℕ, ◌≡◌, refl, ◌∙◌, Bool, true, false, List, All, ◌≢◌, some, arith}
use mini_dsh.Files.Document.{
  Codec, TextDocument, Encoding, utf8, utf16le, encode_for_write, encode_raw, decode_document,
  decode_body, document_of, with_eol, fold_eol, looks_binary, starts_with, utf8_bom, utf16le_bom,
  utf16be_bom,
}
use mini_dsh.Files.Document.Cuts.{document_of_text, fold_eol-with_eol}

-- What a codec does with a text: both encodings are decoded to the same text, and the UTF-8 bytes
-- look neither binary nor as if they began with a byte order mark.
pub record IsEncoded (codec : Codec) (raw : List ℕ) : Type 0 where
  pub utf16 : codec.decode_utf16 (codec.encode_utf16 raw) ≡ raw
  pub utf8 : codec.decode_utf8 (codec.encode_utf8 raw) ≡ some raw
  pub plain : looks_binary (codec.encode_utf8 raw) ≡ false
  pub no_utf8_bom : starts_with (codec.encode_utf8 raw) utf8_bom ≡ false
  pub no_utf16le_bom : starts_with (codec.encode_utf8 raw) utf16le_bom ≡ false
  pub no_utf16be_bom : starts_with (codec.encode_utf8 raw) utf16be_bom ≡ false

-- A document in UTF-16 has a byte order mark.
unfoldable pub has_mark : Encoding → Bool → Bool
has_mark utf8 bom = true
has_mark utf16le bom = bom

pub decode-encode_raw :
    (codec : Codec) (raw : List ℕ) (encoding : Encoding) (bom : Bool)
    → IsEncoded codec raw
    → has_mark encoding bom ≡ true
    → let bytes = encode_raw codec raw encoding bom in
      decode_document codec bytes
      ≡ some (document_of raw encoding bom true (codec.hash_bytes bytes))
unfolding has_mark encode_raw decode_document decode_body starts_with
decode-encode_raw codec raw utf8 true e h = ground (arith, e.plain, e.utf8)
decode-encode_raw codec raw utf8 false e h =
    ground (arith, e.plain, e.utf8, e.no_utf8_bom, e.no_utf16le_bom, e.no_utf16be_bom)
decode-encode_raw codec raw utf16le true e h = rw e.utf16 refl
decode-encode_raw codec raw utf16le false e h = ground (arith, h)

-- A text without lone carriage returns that is written over a document and read again: the new
-- document has the text with its line endings folded, and the encoding and the byte order mark of
-- the old one, and can be written.
pub encode_for_write_lem :
    (codec : Codec) (text : List ℕ) (existing : TextDocument)
    → IsEncoded codec (with_eol text existing.eol)
    → has_mark existing.encoding existing.bom ≡ true
    → All (λ c. c ≢ 13) (fold_eol text)
    → (doc : TextDocument) × (decode_document codec (encode_for_write codec text (some existing))
        ≡ some doc)
      × (doc.text ≡ fold_eol text)
      × (doc.encoding ≡ existing.encoding)
      × (doc.bom ≡ existing.bom)
      × (doc.writable ≡ true)
unfolding encode_for_write
encode_for_write_lem codec text existing e h clean =
    let raw = with_eol text existing.eol in
    let bytes = encode_raw codec raw existing.encoding existing.bom in
    let hash = codec.hash_bytes bytes in
    (
      document_of raw existing.encoding existing.bom true hash,
      decode-encode_raw codec raw existing.encoding existing.bom e h,
      document_of_text raw existing.encoding existing.bom true hash
          ∙ fold_eol-with_eol text existing.eol clean,
      unfold document_of in refl,
      unfold document_of in refl,
      unfold document_of in refl,
    )
