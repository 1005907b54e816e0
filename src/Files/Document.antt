-- ===== src/Files/Document.antt =====
-- capabilities/fs/text-document.ts: stored bytes and the text that the model sees of them. The
-- decoders, the encoders and the hash are the parameter `Codec`; text and bytes are lists of numbers.
mod Decoding
mod Offsets
pub mod Search
pub mod Cuts
pub mod Splices
pub mod Written
mod Tests
unfoldable pub use Decoding.*
use mini_dsh.Common.{
  ℕ, zero, suc, ◌+◌, ◌-◌, ◌*◌, ◌/◌, Bool, true, false, not, ◌&&◌, ◌||◌, Option, none, some, List,
  [], ◌∷◌, ◌++◌, String, eqb, ltb, leb, if◌then◌else◌, length, take, drop, get_elem?, or_else, min,
  is_some,
}

unfoldable pub starts_lf : List ℕ → Bool
starts_lf [] = false
starts_lf (c ∷ text) = eqb c 10

-- `replace(/\r\n/g, '\n')`.
unfoldable pub fold_eol : List ℕ → List ℕ
unfolding starts_lf
fold_eol [] = []
fold_eol (c ∷ text) =
    let rest = fold_eol text in if eqb c 13 && starts_lf text then rest else c ∷ rest

-- `replace(/\r?\n/g, '\r\n')`.
unfoldable pub unfold_eol : List ℕ → List ℕ
unfolding starts_lf
unfold_eol [] = []
unfold_eol (c ∷ text) =
    let rest = unfold_eol text in
    if eqb c 13 && starts_lf text then rest else if eqb c 10 then 13 ∷ 10 ∷ rest else c ∷ rest

unfoldable pub with_eol : List ℕ → LineEnding → List ℕ
unfolding fold_eol unfold_eol
with_eol text crlf = unfold_eol text
with_eol text lf = fold_eol text

module _ (codec : Codec) where
  -- `encodeForWrite`.
  unfoldable pub encode_for_write : List ℕ → Option TextDocument → List ℕ
  unfolding encode_raw with_eol
  encode_for_write text none = codec.encode_utf8 text
  encode_for_write text (some existing) =
      encode_raw codec (with_eol text existing.eol) existing.encoding existing.bom

-- The loop of `rawOffset`: a binary search for the first position of `positions` that is not below
-- `offset`, on fuel.
unfoldable pub search_offset : ℕ → List ℕ → ℕ → ℕ → ℕ → Option ℕ
search_offset zero positions offset low high = none
search_offset (suc fuel) positions offset low high =
    let mid = (low + high) / 2 in
    let right = search_offset fuel positions offset (mid + 1) high in
    let left = search_offset fuel positions offset low mid in
    if ltb low high
    then (if ltb (or_else (get_elem? positions mid) 0) offset then right else left)
    else some low

-- `rawOffset`; one round of fuel for each position and one more.
unfoldable pub raw_offset : TextDocument → ℕ → ℕ
unfolding search_offset
raw_offset doc offset =
    let low = search_offset (length doc.crlf_at + 1) doc.crlf_at offset 0 (length doc.crlf_at) in
    offset + or_else low 0

pub record Splice : Type 0 where
  pub start : ℕ
  pub end : ℕ
  pub text : List ℕ

unfoldable pub insert_by_start : Splice → List Splice → List Splice
insert_by_start s [] = s ∷ []
insert_by_start s (t ∷ splices) =
    let rest = insert_by_start s splices in
    if leb s.start t.start then s ∷ t ∷ splices else t ∷ rest

-- `sort((a, b) => a.start - b.start)`, which is stable.
unfoldable pub sort_by_start : List Splice → List Splice
unfolding insert_by_start
sort_by_start [] = []
sort_by_start (s ∷ splices) = insert_by_start s (sort_by_start splices)

-- The loop of `spliceDocument`: `none` where it throws.
unfoldable pub splice_loop : TextDocument → List Splice → List ℕ → ℕ → Option (List ℕ)
unfolding raw_offset with_eol
splice_loop doc [] result cursor = some (result ++ drop cursor doc.raw)
splice_loop doc (s ∷ splices) result cursor =
    let start = raw_offset doc s.start in
    let end = raw_offset doc s.end in
    let rest =
      splice_loop doc splices
        (result ++ (take (start - cursor) (drop cursor doc.raw) ++ with_eol s.text doc.eol)) end in
    if ltb start cursor then none else rest

unfoldable pub splice_document : TextDocument → List Splice → Option (List ℕ)
unfolding sort_by_start splice_loop
splice_document doc splices = splice_loop doc (sort_by_start splices) [] 0
