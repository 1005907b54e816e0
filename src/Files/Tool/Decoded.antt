-- ===== src/Files/Tool/Decoded.antt =====
-- What a document keeps of the bytes that it was decoded from.
use mini_dsh.Common.{
  ℕ, ◌≡◌, refl, Bool, true, false, Option, none, some, List, String, if◌then◌else◌, Option-cases,
  inl, inr, drop,
}
use mini_dsh.Files.Document.{
  Codec, TextDocument, Encoding, utf8, utf16le, decode_document, decode_body, document_of,
  looks_binary, starts_with, utf8_bom, utf16le_bom, utf16be_bom,
}
use mini_dsh.Files.Document.Written.{has_mark}

-- A document that was decoded from bytes.
pub record IsDecoded (doc : TextDocument) : Type 0 where
  pub raw : List ℕ
  pub encoding : Encoding
  pub bom : Bool
  pub writable : Bool
  pub hash : String
  pub same : doc ≡ document_of raw encoding bom writable hash
  pub marked : has_mark encoding bom ≡ true

abbrev pub OnDocument : Option TextDocument → Type 0
OnDocument none = Unit
OnDocument (some doc) = IsDecoded doc

document_of-IsDecoded :
    (raw : List ℕ) (encoding : Encoding) (bom writable : Bool) (hash : String)
    → has_mark encoding bom ≡ true
    → IsDecoded (document_of raw encoding bom writable hash)
document_of-IsDecoded raw encoding bom writable hash m = record {
  raw = raw;
  encoding = encoding;
  bom = bom;
  writable = writable;
  hash = hash;
  same = refl;
  marked = m;
}

if-OnDocument :
    (b : Bool) (x y : Option TextDocument)
    → OnDocument x
    → OnDocument y
    → OnDocument (if b then x else y)
if-OnDocument true x y f g = f
if-OnDocument false x y f g = g

module _ (codec : Codec) where
  decode_body-OnDocument :
      (bom : Bool) (body : List ℕ) (hash : String) → OnDocument (decode_body codec bom body hash)
  unfolding decode_body
  decode_body-OnDocument bom body hash =
      let marked : has_mark utf8 bom ≡ true = unfold has_mark in refl in
      if-OnDocument (looks_binary body) none _ tt (elim (Option-cases (codec.decode_utf8 body)) [
        | inl invalid ↦
            rw invalid (document_of-IsDecoded (codec.decode_lossy body) utf8 bom false hash marked)
        | inr (raw, valid) ↦ rw valid (document_of-IsDecoded raw utf8 bom true hash marked)
      ])

  pub decode_document-OnDocument : (bytes : List ℕ) → OnDocument (decode_document codec bytes)
  unfolding decode_document
  decode_document-OnDocument bytes =
      let hash = codec.hash_bytes bytes in
      let wide =
        document_of-IsDecoded (codec.decode_utf16 (drop 2 bytes)) utf16le true true hash
          (unfold has_mark in refl) in
      if-OnDocument (starts_with bytes utf16le_bom) _ _ wide (
        if-OnDocument (starts_with bytes utf16be_bom) none _ tt (
          if-OnDocument (starts_with bytes utf8_bom) _ _
            (decode_body-OnDocument true (drop 3 bytes) hash)
            (decode_body-OnDocument false bytes hash)))
