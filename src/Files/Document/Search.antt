-- ===== src/Files/Document/Search.antt =====
-- The binary search of `rawOffset` ends and finds the number of the folded carriage returns before an
-- offset.
use mini_dsh.Common.{
  ℕ, zero, suc, ◌+◌, ◌/◌, ◌<◌, ◌≤◌, ◌≡◌, refl, false, ◌&&◌, some, List, [], ◌∷◌, eqb, ltb,
  if◌then◌else◌, length, get_elem?, or_else, arith, Bool-cases, inl, inr, keep, length-keep-le,
}
use mini_dsh.Files.Document.{starts_lf, search_offset, raw_offset, TextDocument}
use mini_dsh.Files.Document.Offsets.{crlf_positions}

-- How many of the positions are before an offset.
unfoldable pub below : ℕ → List ℕ → ℕ
below offset positions = length (keep (λ p. ltb p offset) positions)

-- The positions ascend, from `n` on.
abbrev pub IsAscending : ℕ → List ℕ → Type 0
IsAscending n [] = Unit
IsAscending n (p ∷ positions) = (n ≤ p) × IsAscending (suc p) positions

pub below_none :
    (n offset : ℕ) (positions : List ℕ)
    → IsAscending n positions
    → offset ≤ n
    → below offset positions ≡ 0
unfolding below
below_none n offset [] v h = refl
below_none n offset (p ∷ positions) v h =
    ground (arith, v.0, h, below_none (suc p) offset positions v.1 (omega (arith, v.0, h)))

pub below-cons :
    (p offset : ℕ) (positions : List ℕ)
    → below offset (p ∷ positions)
      ≡ (if ltb p offset then suc (below offset positions) else below offset positions)
unfolding below
below-cons p offset positions = ground arith

get_below :
    (n offset mid : ℕ) (positions : List ℕ)
    → IsAscending n positions
    → mid < length positions
    → ltb (or_else (get_elem? positions mid) 0) offset ≡ ltb mid (below offset positions)
get_below n offset mid [] v h = ground (arith, h)
get_below n offset zero (p ∷ positions) v h =
    let tail = below_none (suc p) offset positions v.1 in
    elim (Bool-cases (ltb p offset)) [
      | inl before ↦ rw (below-cons p offset positions, before) (ground arith)
      | inr after ↦
          rw (below-cons p offset positions, after) (rw (tail (ground (arith, after))) refl)
    ]
get_below n offset (suc mid) (p ∷ positions) v h =
    let tail = below_none (suc p) offset positions v.1 in
    let rest = get_below (suc p) offset mid positions v.1 (omega (arith, h)) in
    elim (Bool-cases (ltb p offset)) [
      | inl before ↦ rw (below-cons p offset positions, before, rest) (ground arith)
      | inr after ↦
          rw (below-cons p offset positions, after, rest)
            (rw (tail (ground (arith, after))) (ground arith))
    ]

search_offset_lem :
    (fuel offset low high : ℕ) (positions : List ℕ)
    → IsAscending 0 positions
    → low ≤ below offset positions
    → below offset positions ≤ high
    → high ≤ length positions
    → high < low + fuel
    → search_offset fuel positions offset low high ≡ some (below offset positions)
unfolding search_offset
search_offset_lem zero offset low high positions v l r n f = ground (arith, l, r, f)
search_offset_lem (suc fuel) offset low high positions v l r n f =
    elim (Bool-cases (ltb low high)) [
      | inr done ↦ rw done (ground (arith, done, l, r))
      | inl more ↦
          let mid = (low + high) / 2 in
          let from : low ≤ mid = omega (arith, l, r) in
          let to : mid < high = ground (arith, more) in
          let get = get_below 0 offset mid positions v (omega (arith, to, n)) in
          elim (Bool-cases (ltb mid (below offset positions))) [
            | inl right ↦
                let rest =
                  search_offset_lem fuel offset (mid + 1) high positions v (ground (arith, right)) r
                    n (omega (arith, f, from)) in
                rw (more, get, right) rest
            | inr left ↦
                let rest =
                  search_offset_lem fuel offset low mid positions v l (ground (arith, left))
                    (omega (arith, to, n)) (omega (arith, f, to)) in
                rw (more, get, left) rest
          ]
    ]

-- For ascending positions of newlines that are stored as CRLF, the binary search ends within one
-- round for each position and one more, and the offset grows by the number of positions before it.
pub raw_offset-below :
    (doc : TextDocument) (offset : ℕ)
    → IsAscending 0 doc.crlf_at
    → let size = length doc.crlf_at in
      (search_offset (size + 1) doc.crlf_at offset 0 size ≡ some (below offset doc.crlf_at))
      × (raw_offset doc offset ≡ offset + below offset doc.crlf_at)
raw_offset-below doc offset v =
    let size = length doc.crlf_at in
    let search =
      search_offset_lem (size + 1) offset 0 size doc.crlf_at v (omega arith)
        (unfold below in length-keep-le (λ p. ltb p offset) doc.crlf_at) (omega arith)
        (omega arith) in
    (search, unfold raw_offset in rw search refl)

pub IsAscending-weaken :
    (n : ℕ) (positions : List ℕ) → IsAscending (suc n) positions → IsAscending n positions
IsAscending-weaken n [] v = tt
IsAscending-weaken n (p ∷ positions) v = (omega (arith, v.0), v.1)

-- The positions of a folded file ascend.
pub crlf_positions-IsAscending : (n : ℕ) (raw : List ℕ) → IsAscending n (crlf_positions n raw)
unfolding crlf_positions starts_lf
crlf_positions-IsAscending n [] = tt
crlf_positions-IsAscending n (c ∷ []) = elim (Bool-cases (eqb c 13)) [
  | inl cr ↦ rw cr tt
  | inr char ↦ rw char tt
]
crlf_positions-IsAscending n (c ∷ d ∷ raw) = elim (Bool-cases (eqb c 13 && eqb d 10)) [
  | inl folded ↦
      let newline : eqb d 13 ≡ false = ground (arith, folded) in
      rw (folded, newline) (omega arith, crlf_positions-IsAscending (suc n) raw)
  | inr char ↦ rw char (
      IsAscending-weaken n (crlf_positions (suc n) (d ∷ raw))
        (crlf_positions-IsAscending (suc n) (d ∷ raw)))
]
