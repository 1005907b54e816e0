-- ===== src/Mcp/Journal/Reopen.antt =====
-- Opening a file gives back the index of its committed records.
use mini_dsh.Common.{
  ℕ, ◌+◌, ◌≡◌, refl, ◌≢◌, true, none, arith, List, [], ◌∷◌, ◌++◌, map, All, keep, eq_refl, ap, ◌∙◌,
}
use mathlib.Core.List.{append_assoc}
use mini_dsh.Common.Units.{split_lines, split_lines-line, ends_line}
use mini_dsh.Mcp.Journal.{Journal, Stored, new_journal, remember}
use mini_dsh.Mcp.Journal.Recovery.{
  Codec, keep_line, committed, cut_torn, is_line, open_lines, open_journal, line_of, file_text,
  replay, IsNumbered, IsPrinted,
}

keep_line-cons :
    (c : ℕ) (line rest : List ℕ) → keep_line c (line ++ 10 ∷ rest) ≡ c ∷ line ++ 10 ∷ rest
unfolding keep_line
keep_line-cons c [] rest = refl
keep_line-cons c (d ∷ line) rest = refl

keep_line_newline : (rest : List ℕ) → keep_line 10 rest ≡ 10 ∷ rest
unfolding keep_line
keep_line_newline [] = refl
keep_line_newline (d ∷ rest) = refl

committed-line : (line text : List ℕ) → committed (line ++ 10 ∷ text) ≡ line ++ 10 ∷ committed text
unfolding committed
committed-line [] text = keep_line_newline (committed text)
committed-line (c ∷ line) text =
    rw (committed-line line text) (keep_line-cons c line (committed text))

committed_tail : (tail : List ℕ) → All (λ c. c ≢ 10) tail → committed tail ≡ []
unfolding committed
committed_tail [] h = refl
committed_tail (c ∷ tail) h = rw (committed_tail tail h.1) (ground arith)

committed-ends_line : (raw : List ℕ) → ends_line raw ≡ true → committed raw ≡ raw
unfolding committed ends_line
committed-ends_line [] h = refl
committed-ends_line (c ∷ []) h = ground arith
committed-ends_line (c ∷ d ∷ raw) h = ap (keep_line c) (committed-ends_line (d ∷ raw) h)

cut_torn-committed : (raw : List ℕ) → cut_torn raw ≡ committed raw
unfolding cut_torn
cut_torn-committed raw = ground (arith, committed-ends_line raw)

module _ (codec : Codec) where
  committed-file_text :
      (file : List Stored) (tail : List ℕ)
      → All (λ c. c ≢ 10) tail
      → committed (file_text codec file ++ tail) ≡ file_text codec file
  unfolding file_text line_of
  committed-file_text [] tail h = committed_tail tail h
  committed-file_text (s ∷ file) tail h =
      let text = codec.encode s (codec.digest_of s) in
      simp append_assoc
        (rw (committed-line text (file_text codec file ++ tail), committed-file_text file tail h))

  abbrev line_texts : List Stored → List (List ℕ)
  line_texts = map (λ s. codec.encode s (codec.digest_of s))

  is_line-encode :
      (s : Stored) → IsPrinted codec s → is_line (codec.encode s (codec.digest_of s)) ≡ true
  is_line-encode s p = ground (arith, p.nonempty)

  lines-file_text :
      (file : List Stored)
      → All (IsPrinted codec) file
      → keep is_line (split_lines (file_text codec file)) ≡ line_texts file
  unfolding file_text line_of split_lines
  lines-file_text [] p = refl
  lines-file_text (s ∷ file) p =
      let text = codec.encode s (codec.digest_of s) in
      simp append_assoc (
        rw (split_lines-line text (file_text codec file) p.0.one_line)
          (rw (is_line-encode s p.0, lines-file_text file p.1)))

  open_lines-replay :
      (n : ℕ) (file : List Stored) (j : Journal)
      → All (IsPrinted codec) file
      → IsNumbered n file
      → open_lines codec n (line_texts file) j ≡ (none, replay file j)
  unfolding open_lines replay
  open_lines-replay n [] j p h = refl
  open_lines-replay n (s ∷ file) j p h = ground (
    arith,
    eq_refl (codec.digest_of s),
    p.0.parse-encode,
    open_lines-replay (n + 1) file
        (remember s.body (record j { seq = s.seq; file = j.file ++ s ∷ [] })) p.1 h.2,
  )

  -- Opening a file of numbered records, whose last line may have been torn by a crash, throws
  -- nothing, gives the index that the records stand for, and leaves the complete lines in the file.
  pub open_journal-file_text :
      (file : List Stored) (tail : List ℕ)
      → All (IsPrinted codec) file
      → IsNumbered 1 file
      → All (λ c. c ≢ 10) tail
      → open_journal codec (file_text codec file ++ tail)
        ≡ (none, replay file new_journal, file_text codec file)
  unfolding open_journal
  open_journal-file_text file tail p h t =
      let raw = file_text codec file ++ tail in
      let cut = cut_torn-committed raw ∙ committed-file_text file tail t in
      rw cut (rw (lines-file_text file p, open_lines-replay 1 file new_journal p h) (rw cut))
