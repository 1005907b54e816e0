-- ===== src/Files/Document/Decoding.antt =====
-- capabilities/fs/text-document.ts: stored bytes, decoded and encoded, and the folding of line endings.
use mini_dsh.Common.{
  ℕ, ◌+◌, ◌*◌, Bool, true, false, not, ◌&&◌, Option, none, some, List, [], ◌∷◌, ◌++◌, String, eqb,
  ltb, if◌then◌else◌, length, take, drop,
}

pub data Encoding : Type 0 where
  utf8 : Encoding
  utf16le : Encoding

pub data LineEnding : Type 0 where
  lf : LineEnding
  crlf : LineEnding

pub record TextDocument : Type 0 where
  pub text : List ℕ
  pub raw : List ℕ
  pub encoding : Encoding
  pub bom : Bool
  pub eol : LineEnding
  pub mixed_eol : Bool
  pub writable : Bool
  pub hash : String
  pub crlf_at : List ℕ

-- `TextDecoder` for UTF-16, for UTF-8 that throws (`none`) and for UTF-8 that replaces, `Buffer.from`
-- for both encodings, and SHA-256.
pub record Codec : Type 0 where
  pub decode_utf16 : List ℕ → List ℕ
  pub decode_utf8 : List ℕ → Option (List ℕ)
  pub decode_lossy : List ℕ → List ℕ
  pub encode_utf16 : List ℕ → List ℕ
  pub encode_utf8 : List ℕ → List ℕ
  pub hash_bytes : List ℕ → String

unfoldable pub starts_with : List ℕ → List ℕ → Bool
starts_with bytes [] = true
starts_with [] (p ∷ prefix) = false
starts_with (b ∷ bytes) (p ∷ prefix) = eqb b p && starts_with bytes prefix

abbrev pub utf8_bom : List ℕ
utf8_bom = 239 ∷ 187 ∷ 191 ∷ []

abbrev pub utf16le_bom : List ℕ
utf16le_bom = 255 ∷ 254 ∷ []

abbrev pub utf16be_bom : List ℕ
utf16be_bom = 254 ∷ 255 ∷ []

abbrev pub binary_sniff : ℕ
binary_sniff = 8192

unfoldable pub is_control : ℕ → Bool
is_control byte =
    ltb byte 32
    && not (eqb byte 9)
    && not (eqb byte 10)
    && not (eqb byte 12)
    && not (eqb byte 13)
    && not (eqb byte 27)

-- The control bytes of a head of the file, or `none` at the first NUL.
unfoldable pub count_control : List ℕ → ℕ → Option ℕ
unfolding is_control
count_control [] control = some control
count_control (byte ∷ bytes) control =
    let rest = count_control bytes (if is_control byte then control + 1 else control) in
    if eqb byte 0 then none else rest

unfoldable pub looks_binary : List ℕ → Bool
unfolding count_control
looks_binary bytes =
    let head = take binary_sniff bytes in
    elim (count_control head 0) [
      | none ↦ true
      | some control ↦ ltb (3 * length head) (10 * control)
    ]

-- The variables of the loop of `decodeDocument`: `segment` is what follows the last newline.
pub record Folding : Type 0 where
  pub text : List ℕ
  pub crlf_at : List ℕ
  pub lf : ℕ
  pub segment : List ℕ

unfoldable pub drop_last : List ℕ → List ℕ
drop_last [] = []
drop_last (c ∷ []) = []
drop_last (c ∷ d ∷ text) = c ∷ drop_last (d ∷ text)

-- A newline behind the character `previous`, which is `none` at the start.
unfoldable pub fold_newline : Bool → Folding → Folding
unfolding drop_last
fold_newline true s =
    let text = s.text ++ drop_last s.segment in
    record {
      text = text ++ 10 ∷ [];
      crlf_at = s.crlf_at ++ length text ∷ [];
      lf = s.lf;
      segment = [];
    }
fold_newline false s = record s {
  text = s.text ++ (s.segment ++ 10 ∷ []);
  lf = s.lf + 1;
  segment = [];
}

unfoldable pub fold_loop : Bool → List ℕ → Folding → Folding
unfolding fold_newline
fold_loop after_cr [] s = record s { text = s.text ++ s.segment; segment = [] }
fold_loop after_cr (c ∷ raw) s =
    fold_loop (eqb c 13) raw
      (if eqb c 10 then fold_newline after_cr s else record s { segment = s.segment ++ c ∷ [] })

unfoldable pub fold_raw : List ℕ → Folding
unfolding fold_loop
fold_raw raw = fold_loop false raw (record { text = []; crlf_at = []; lf = 0; segment = [] })

unfoldable pub dominant_eol : Folding → LineEnding
dominant_eol s = if ltb s.lf (length s.crlf_at) then crlf else lf

unfoldable pub document_of : List ℕ → Encoding → Bool → Bool → String → TextDocument
unfolding fold_raw dominant_eol
document_of raw encoding bom writable hash =
    let folded = fold_raw raw in
    record {
      text = folded.text;
      raw = raw;
      encoding = encoding;
      bom = bom;
      eol = dominant_eol folded;
      mixed_eol = ltb 0 (length folded.crlf_at) && ltb 0 folded.lf;
      writable = writable;
      hash = hash;
      crlf_at = folded.crlf_at;
    }

module _ (codec : Codec) where
  unfoldable pub decode_body : Bool → List ℕ → String → Option TextDocument
  unfolding document_of looks_binary
  decode_body bom body hash = if looks_binary body then none else elim (codec.decode_utf8 body) [
    | some raw ↦ some (document_of raw utf8 bom true hash)
    | none ↦ some (document_of (codec.decode_lossy body) utf8 bom false hash)
  ]

  -- `decodeDocument`: `none` where it throws `BinaryFileError`.
  unfoldable pub decode_document : List ℕ → Option TextDocument
  unfolding decode_body document_of starts_with
  decode_document bytes =
      let hash = codec.hash_bytes bytes in
      if starts_with bytes utf16le_bom
      then some (document_of (codec.decode_utf16 (drop 2 bytes)) utf16le true true hash)
      else if starts_with bytes utf16be_bom
      then none
      else if starts_with bytes utf8_bom
      then decode_body true (drop 3 bytes) hash
      else decode_body false bytes hash

  unfoldable pub encode_raw : List ℕ → Encoding → Bool → List ℕ
  encode_raw raw utf8 bom = if bom then utf8_bom ++ codec.encode_utf8 raw else codec.encode_utf8 raw
  encode_raw raw utf16le bom =
      if bom then utf16le_bom ++ codec.encode_utf16 raw else codec.encode_utf16 raw
