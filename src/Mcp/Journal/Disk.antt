-- ===== src/Mcp/Journal/Disk.antt =====
-- The bytes of the file where failed writes have left at most a torn last line.
use mini_dsh.Common.{
  ℕ, ◌+◌, ◌<◌, ◌≡◌, refl, ◌≢◌, arith, List, [], ◌∷◌, ◌++◌, All, ap, sym, ◌∙◌, ◌⊎◌, inl, inr, length,
  take, eqb, Bool-cases, subst,
}
use mathlib.Core.List.{append_assoc}
use mini_dsh.Mcp.Journal.{Journal, Stored, Leftover}
use mini_dsh.Mcp.Journal.Recovery.{
  Codec, line_of, file_text, left_behind, disk_text_from, disk_text,
}

-- What a failed write has left is nothing, or stands behind all lines and has no newline.
abbrev pub IsTornAt : Codec → ℕ → Leftover → Type 0
IsTornAt codec n l =
    (l.units ≡ 0) ⊎ ((l.behind ≡ n) × All (λ c. c ≢ 10) (take l.units (line_of codec l.line)))

pub All-append :
    (xs ys : List ℕ) → All (λ c. c ≢ 10) xs → All (λ c. c ≢ 10) ys → All (λ c. c ≢ 10) (xs ++ ys)
All-append [] ys h k = k
All-append (x ∷ xs) ys h k = (h.0, All-append xs ys h.1 k)

module _ (codec : Codec) where
  left_behind_before :
      (m n : ℕ) (leftovers : List Leftover)
      → m < n
      → All (IsTornAt codec n) leftovers
      → left_behind codec m leftovers ≡ []
  unfolding left_behind
  left_behind_before m n [] lt h = refl
  left_behind_before m n (l ∷ leftovers) lt h =
      let rest = left_behind_before m n leftovers lt h.1 in one h.0 rest
    where
      one :
          IsTornAt codec n l
          → left_behind codec m leftovers ≡ []
          → left_behind codec m (l ∷ leftovers) ≡ []
      one (inl e) r = rw (e, r) (ground arith)
      one (inr (b, t)) r = rw r (ground (arith, b, lt))

  left_behind_torn :
      (n : ℕ) (leftovers : List Leftover)
      → All (IsTornAt codec n) leftovers
      → All (λ c. c ≢ 10) (left_behind codec n leftovers)
  unfolding left_behind
  left_behind_torn n [] h = tt
  left_behind_torn n (l ∷ leftovers) h = one h.0 (left_behind_torn n leftovers h.1)
    where
      one :
          IsTornAt codec n l
          → All (λ c. c ≢ 10) (left_behind codec n leftovers)
          → All (λ c. c ≢ 10) (left_behind codec n (l ∷ leftovers))
      one t r = elim (Bool-cases (eqb l.behind n)) [
        | inr f ↦ rw f r
        | inl f ↦ rw f (All-append (take l.units (line_of codec l.line)) _ (part t) r)
      ]
        where
          part : IsTornAt codec n l → All (λ c. c ≢ 10) (take l.units (line_of codec l.line))
          part (inl e) = rw e tt
          part (inr (b, t)) = t

  disk_text_from_torn :
      (n : ℕ) (file : List Stored) (leftovers : List Leftover)
      → All (IsTornAt codec (n + length file)) leftovers
      → disk_text_from codec n file leftovers
        ≡ file_text codec file ++ left_behind codec (n + length file) leftovers
  unfolding disk_text_from file_text
  disk_text_from_torn n [] leftovers h = ap (λ k. left_behind codec k leftovers) (omega arith)
  disk_text_from_torn n (s ∷ file) leftovers h =
      let next : n + (length file + 1) ≡ (n + 1) + length file = omega arith in
      let rest =
        disk_text_from_torn (n + 1) file leftovers
          (subst (λ k. All (IsTornAt codec k) leftovers) (omega arith) h) in
      rw (left_behind_before n (n + length (s ∷ file)) leftovers (omega arith) h) (
        ap (λ t. line_of codec s ++ t) rest
        ∙ sym (append_assoc (line_of codec s) (file_text codec file) _)
        ∙ ap (λ k. (line_of codec s ++ file_text codec file) ++ left_behind codec k leftovers)
            (omega arith))

  -- The text of such a file: its lines, and a torn one.
  pub disk_text_torn :
      (j : Journal)
      → All (IsTornAt codec (length j.file)) j.leftovers
      → (torn : List ℕ) × (disk_text codec j ≡ file_text codec j.file ++ torn)
        × All (λ c. c ≢ 10) torn
  unfolding disk_text
  disk_text_torn j h = (
    left_behind codec (length j.file) j.leftovers,
    disk_text_from_torn 0 j.file j.leftovers
          (subst (λ k. All (IsTornAt codec k) j.leftovers) (omega arith) h)
        ∙ ap (λ k. file_text codec j.file ++ left_behind codec k j.leftovers) (omega arith),
    left_behind_torn (length j.file) j.leftovers h,
  )
