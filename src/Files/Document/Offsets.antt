-- ===== src/Files/Document/Offsets.antt =====
-- The folded text of a document by clauses, and the offsets of `rawOffset`.
use mini_dsh.Common.{
  ℕ, suc, ◌+◌, ◌≡◌, refl, ap, sym, ◌∙◌, ◌≢◌, Bool, true, false, ◌&&◌, List, [], ◌∷◌, ◌++◌, eqb,
  if◌then◌else◌, length, length-append, arith, Bool-cases, inl, inr,
}
use mathlib.Core.List.{append_assoc, append-nil}
use mini_dsh.Files.Document.{
  Folding, fold_loop, fold_newline, fold_raw, drop_last, starts_lf, fold_eol,
}

-- The positions, from `n` on, of the newlines in the folded text that are stored as CRLF.
unfoldable pub crlf_positions : ℕ → List ℕ → List ℕ
unfolding starts_lf
crlf_positions n [] = []
crlf_positions n (c ∷ raw) =
    if eqb c 13 && starts_lf raw then n ∷ crlf_positions n raw else crlf_positions (suc n) raw

drop_last_snoc : (text : List ℕ) (c : ℕ) → drop_last (text ++ c ∷ []) ≡ text
unfolding drop_last
drop_last_snoc [] c = refl
drop_last_snoc (d ∷ []) c = refl
drop_last_snoc (d ∷ e ∷ text) c = ap (λ t. d ∷ t) (drop_last_snoc (e ∷ text) c)

-- A text behind a carriage return that the loop has not folded yet.
abbrev behind : Bool → List ℕ → List ℕ
behind true raw = 13 ∷ raw
behind false raw = raw

abbrev state : List ℕ → List ℕ → List ℕ → ℕ → Folding
state text segment positions n = record {
  text = text;
  crlf_at = positions;
  lf = n;
  segment = segment;
}

fold_loop_newline :
    (b : Bool) (raw text segment positions : List ℕ) (n : ℕ)
    → fold_loop b (10 ∷ raw) (state text (segment ++ behind b []) positions n)
      ≡ fold_loop false raw (
          if b
          then state (text ++ segment ++ 10 ∷ []) [] (positions ++ length (text ++ segment) ∷ []) n
          else state (text ++ (segment ++ 10 ∷ [])) [] positions (n + 1))
unfolding fold_loop fold_newline
fold_loop_newline true raw text segment positions n = rw (drop_last_snoc segment 13) refl
fold_loop_newline false raw text segment positions n = rw (append-nil segment) refl

fold_loop_char :
    (b : Bool) (c : ℕ) (raw text segment positions : List ℕ) (n : ℕ)
    → c ≢ 10
    → fold_loop b (c ∷ raw) (state text segment positions n)
      ≡ fold_loop (eqb c 13) raw (state text (segment ++ c ∷ []) positions n)
unfolding fold_loop
fold_loop_char b c raw text segment positions n h = ground (arith, h)

fold_eol_newline : (b : Bool) (raw : List ℕ) → fold_eol (behind b (10 ∷ raw)) ≡ 10 ∷ fold_eol raw
unfolding fold_eol starts_lf
fold_eol_newline true raw = refl
fold_eol_newline false raw = refl

fold_eol_char :
    (b : Bool) (c : ℕ) (raw : List ℕ)
    → c ≢ 10
    → fold_eol (behind b (c ∷ raw)) ≡ behind b [] ++ fold_eol (c ∷ raw)
unfolding fold_eol starts_lf
fold_eol_char true c raw h = ground (arith, h)
fold_eol_char false c raw h = refl

positions_char :
    (b : Bool) (c : ℕ) (raw : List ℕ) (n : ℕ)
    → c ≢ 10
    → crlf_positions n (behind b (c ∷ raw)) ≡ crlf_positions (length (behind b []) + n) (c ∷ raw)
unfolding crlf_positions starts_lf
positions_char true c raw n h = let one : 1 + n ≡ suc n = omega arith in rw one (ground (arith, h))
positions_char false c raw n h = let same : 0 + n ≡ n = omega arith in rw same refl

Folds : Folding → List ℕ → List ℕ → Type 0
Folds s text positions = (s.text ≡ text) × (s.crlf_at ≡ positions)

move_segment :
    (b : Bool) (c : ℕ) (raw text segment positions : List ℕ) (s : Folding)
    → c ≢ 10
    → Folds s
        (text ++ ((segment ++ behind b []) ++ fold_eol (c ∷ raw)))
        (positions ++ crlf_positions (length text + length (segment ++ behind b [])) (c ∷ raw))
    → Folds s
        (text ++ (segment ++ fold_eol (behind b (c ∷ raw))))
        (positions ++ crlf_positions (length text + length segment) (behind b (c ∷ raw)))
move_segment b c raw text segment positions s h folds =
    let len : length (behind b []) + (length text + length segment)
        ≡ length text + length (segment ++ behind b []) =
      omega (arith, length-append segment (behind b [])) in
    rw (fold_eol_char b c raw h, positions_char b c raw (length text + length segment) h, len)
      (rw⁻¹ (append_assoc segment (behind b []) (fold_eol (c ∷ raw))) folds)

move_char :
    (c : ℕ) (raw text segment positions : List ℕ) (s : Folding)
    → c ≢ 13
    → Folds s
        (text ++ ((segment ++ c ∷ []) ++ fold_eol raw))
        (positions ++ crlf_positions (length text + length (segment ++ c ∷ [])) raw)
    → Folds s
        (text ++ (segment ++ fold_eol (c ∷ raw)))
        (positions ++ crlf_positions (length text + length segment) (c ∷ raw))
unfolding fold_eol crlf_positions
move_char c raw text segment positions s h folds =
    let len : suc (length text + length segment) ≡ length text + length (segment ++ c ∷ []) =
      omega (arith, length-append segment (c ∷ [])) in
    let not_cr : eqb c 13 ≡ false = ground (arith, h) in
    rw (not_cr, len) (rw⁻¹ (append_assoc segment (c ∷ []) (fold_eol raw)) folds)

positions_crlf :
    (n : ℕ) (raw : List ℕ) → crlf_positions n (13 ∷ 10 ∷ raw) ≡ n ∷ crlf_positions (suc n) raw
unfolding crlf_positions starts_lf
positions_crlf n raw = refl

positions_lf : (n : ℕ) (raw : List ℕ) → crlf_positions n (10 ∷ raw) ≡ crlf_positions (suc n) raw
unfolding crlf_positions
positions_lf n raw = refl

move_newline :
    (b : Bool) (raw text segment positions : List ℕ) (n : ℕ)
    → ((t p : List ℕ) (k : ℕ)
        → Folds
            (fold_loop false raw (state t [] p k))
            (t ++ ([] ++ fold_eol raw))
            (p ++ crlf_positions (length t + 0) raw))
    → Folds
        (fold_loop false raw (
          if b
          then state (text ++ segment ++ 10 ∷ []) [] (positions ++ length (text ++ segment) ∷ []) n
          else state (text ++ (segment ++ 10 ∷ [])) [] positions (n + 1)))
        (text ++ (segment ++ 10 ∷ fold_eol raw))
        (positions ++ crlf_positions (length text + length segment) (behind b (10 ∷ raw)))
unfolding Folds
move_newline true raw text segment positions n rest =
    let one = length-append text segment in
    let end : length (text ++ segment ++ 10 ∷ []) + 0 ≡ suc (length text + length segment) =
      omega (arith, length-append (text ++ segment) (10 ∷ []), one) in
    let one_position : List ℕ = (length text + length segment) ∷ [] in
    let folds = rest (text ++ segment ++ 10 ∷ []) (positions ++ length (text ++ segment) ∷ []) n in
    (
      folds.0 ∙ simp append_assoc refl,
      folds.1
          ∙ rw (positions_crlf (length text + length segment) raw, end, one)
              (append_assoc positions one_position _),
    )
move_newline false raw text segment positions n rest =
    let end : length (text ++ (segment ++ 10 ∷ [])) + 0 ≡ suc (length text + length segment) =
      omega (arith, length-append text (segment ++ 10 ∷ []), length-append segment (10 ∷ [])) in
    let folds = rest (text ++ (segment ++ 10 ∷ [])) positions (n + 1) in
    (
      folds.0 ∙ simp append_assoc refl,
      folds.1 ∙ rw (positions_lf (length text + length segment) raw, end) refl,
    )

fold_loop_lem :
    (b : Bool) (raw text segment positions : List ℕ) (n : ℕ)
    → Folds
        (fold_loop b raw (state text (segment ++ behind b []) positions n))
        (text ++ (segment ++ fold_eol (behind b raw)))
        (positions ++ crlf_positions (length text + length segment) (behind b raw))
fold_loop_lem true [] text segment positions n =
    unfold Folds fold_loop fold_eol crlf_positions starts_lf in (refl, sym (append-nil positions))
fold_loop_lem false [] text segment positions n =
    unfold Folds fold_loop fold_eol crlf_positions in (refl, sym (append-nil positions))
fold_loop_lem b (c ∷ raw) text segment positions n = elim (Bool-cases (eqb c 10)) [
  | inl newline ↦
      let is_newline : c ≡ 10 = ground (arith, newline) in
      rw (is_newline, fold_loop_newline b raw text segment positions n, fold_eol_newline b raw)
        (move_newline b raw text segment positions n (λ t p k. fold_loop_lem false raw t [] p k))
  | inr other ↦
      let no : c ≢ 10 = ground (arith, other) in
      let before = segment ++ behind b [] in
      move_segment b c raw text segment positions _ no (
        rw (fold_loop_char b c raw text before positions n no) (elim (Bool-cases (eqb c 13)) [
          | inl cr ↦
              let is_cr : c ≡ 13 = ground (arith, cr) in
              rw is_cr (fold_loop_lem true raw text before positions n)
          | inr char ↦
              let rest = fold_loop_lem false raw text (before ++ c ∷ []) positions n in
              move_char c raw text before positions _ (ground (arith, char))
                (rw char (simp append-nil at rest))
        ]))
]

-- The text and the positions of a folded file.
pub fold_raw_lem :
    (raw : List ℕ)
    → ((fold_raw raw).text ≡ fold_eol raw) × ((fold_raw raw).crlf_at ≡ crlf_positions 0 raw)
unfolding fold_raw Folds
fold_raw_lem raw = fold_loop_lem false raw [] [] [] 0
