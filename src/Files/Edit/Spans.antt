-- ===== src/Files/Edit/Spans.antt =====
-- The splices of a match lie in the document, one behind the other.
use mini_dsh.Common.{
  ℕ, suc, ◌<◌, ◌≡◌, refl, ap, Bool, Option, none, some, List, [], ◌∷◌, map, ltb, leb, length, arith,
  Bool-cases, inl, inr, All, subst, take, drop,
}
use mini_dsh.Common.Units.{split_lines, ends_line, extend_line}
use mini_dsh.Files.Edit.{
  MatchStrategy, exact, quotes, indentation, trailing_whitespace, line_numbers_stripped,
  MatchResult, exact_offsets, strip_gutter, LineBlock, find_blocks, blocks_from, straight_quotes,
  indent_spans, reindent,
}
use mini_dsh.Files.Edit.Lines.{trim_end, dedent, common_indent, dedent_line}
use mini_dsh.Files.Edit.Find.{
  find_quotes, find_indented, find_trimmed, find_fallback, find_exact, find_inexact,
  find_edit_match, line_spans, same_indented, same_trimmed,
}
use mini_dsh.Files.Edit.Offsets.{
  IsApart, IsWithin, spans_at-disjoint, spans_at-IsWithin, exact_offsets-IsApart,
}
use mini_dsh.Files.Edit.LineSpans.{line_splice-IsWithin}
use mini_dsh.Files.Edit.Fitting.{
  OnMatch, Fits, result-Fits, result_one-Fits, if-OnMatch, unless_empty-OnMatch,
}

length-straight_quotes : (text : List ℕ) → length (straight_quotes text) ≡ length text
unfolding straight_quotes
length-straight_quotes [] = refl
length-straight_quotes (c ∷ text) = ap suc (length-straight_quotes text)

find_quotes-Fits :
    (text sought replacement : List ℕ)
    → OnMatch (Fits (length text)) (find_quotes text sought replacement)
unfolding find_quotes
find_quotes-Fits text sought replacement =
    let plain = straight_quotes sought in
    let found = exact_offsets-IsApart (straight_quotes text) plain in
    let same = length-straight_quotes text in
    result_one-Fits (length text) text quotes _ (
      spans_at-IsWithin 0 (length plain) (length text) _ replacement (
        subst (λ n. IsApart 0 (length plain) n (exact_offsets (straight_quotes text) plain)) same
          found))

indent_spans-IsWithin :
    (text : List ℕ) (file_lines : List (List ℕ)) (consumes_newline : Bool)
    (replacement search_indent : List ℕ) (blocks : List LineBlock)
    → All (λ b. 0 < b.count) blocks
    → All
        (IsWithin (length text))
        (indent_spans text file_lines consumes_newline replacement search_indent blocks)
unfolding indent_spans
indent_spans-IsWithin text file_lines consumes_newline replacement search_indent [] c = tt
indent_spans-IsWithin text file_lines consumes_newline replacement search_indent (b ∷ blocks) c =
    let file_indent = common_indent (take b.count (drop b.start_line file_lines)) in
    (
      line_splice-IsWithin text (reindent replacement search_indent file_indent) b consumes_newline
          c.0,
      indent_spans-IsWithin text file_lines consumes_newline replacement search_indent blocks c.1,
    )

line_spans-IsWithin :
    (text : List ℕ) (consumes_newline : Bool) (replacement : List ℕ) (blocks : List LineBlock)
    → All (λ b. 0 < b.count) blocks
    → All (IsWithin (length text)) (line_spans text consumes_newline replacement blocks)
unfolding line_spans
line_spans-IsWithin text consumes_newline replacement [] c = tt
line_spans-IsWithin text consumes_newline replacement (b ∷ blocks) c = (
  line_splice-IsWithin text replacement b consumes_newline c.0,
  line_spans-IsWithin text consumes_newline replacement blocks c.1,
)

blocks_from_count :
    (same : List (List ℕ) → Bool) (count index : ℕ) (lines : List (List ℕ))
    → 0 < count
    → All (λ b. 0 < b.count) (blocks_from same count index lines)
unfolding blocks_from
blocks_from_count same count index [] c = tt
blocks_from_count same count index (line ∷ lines) c =
    let rest = blocks_from_count same count (suc index) lines c in
    elim (Bool-cases (leb count (length (line ∷ lines)))) [
      | inr short ↦ rw short tt
      | inl room ↦ elim (Bool-cases (same (take count (line ∷ lines)))) [
        | inl wanted ↦ rw (room, wanted) (c, rest)
        | inr other ↦ rw (room, other) rest
      ]
    ]

find_blocks_count :
    (file_lines sought : List (List ℕ)) (same : List (List ℕ) → Bool)
    → 0 < length sought
    → All (λ b. 0 < b.count) (find_blocks file_lines sought same)
unfolding find_blocks
find_blocks_count file_lines sought same c = blocks_from_count same (length sought) 0 file_lines c

length-map : (f : List ℕ → List ℕ) (lines : List (List ℕ)) → length (map f lines) ≡ length lines
length-map f [] = refl
length-map f (line ∷ lines) = ap suc (length-map f lines)

find_indented-Fits :
    (text sought : List ℕ) (lines : List (List ℕ)) (consumes_newline : Bool) (replacement : List ℕ)
    → 0 < length lines
    → OnMatch (Fits (length text)) (find_indented text sought lines consumes_newline replacement)
unfolding find_indented
find_indented-Fits text sought lines consumes_newline replacement c =
    let indent = common_indent lines in
    let normalized = map trim_end (dedent lines indent) in
    let file_lines = split_lines text in
    let blocks = find_blocks file_lines normalized (same_indented normalized) in
    let long : 0 < length normalized =
      unfold dedent in
      rw
        (
          length-map trim_end (map (dedent_line indent) lines),
          length-map (dedent_line indent) lines,
        )
        c in
    let counts = find_blocks_count file_lines normalized (same_indented normalized) long in
    let plain = find_quotes-Fits text sought replacement in
    let fits =
      result_one-Fits (length text) text indentation _
        (indent_spans-IsWithin text file_lines consumes_newline replacement indent blocks counts) in
    if-OnMatch (Fits (length text)) (ltb 1 (length lines)) _ _
      (unless_empty-OnMatch (Fits (length text)) blocks _ _ fits plain) plain

find_trimmed-Fits :
    (text sought : List ℕ) (lines : List (List ℕ)) (consumes_newline : Bool) (replacement : List ℕ)
    → 0 < length lines
    → OnMatch (Fits (length text)) (find_trimmed text sought lines consumes_newline replacement)
unfolding find_trimmed
find_trimmed-Fits text sought lines consumes_newline replacement c =
    let wanted = map trim_end lines in
    let blocks = find_blocks (split_lines text) wanted (same_trimmed wanted) in
    let long : 0 < length wanted = rw (length-map trim_end lines) c in
    let counts = find_blocks_count (split_lines text) wanted (same_trimmed wanted) long in
    let fits =
      result_one-Fits (length text) text trailing_whitespace _
        (line_spans-IsWithin text consumes_newline replacement blocks counts) in
    unless_empty-OnMatch (Fits (length text)) blocks _ _ fits
      (find_indented-Fits text sought lines consumes_newline replacement c)

length-extend_line : (c : ℕ) (lines : List (List ℕ)) → 0 < length (extend_line c lines)
unfolding extend_line
length-extend_line c [] = omega arith
length-extend_line c (line ∷ lines) = omega arith

length-split_lines : (text : List ℕ) → 0 < length (split_lines text)
unfolding split_lines
length-split_lines [] = omega arith
length-split_lines (c ∷ text) = ground (arith, length-extend_line c (split_lines text))

find_fallback-Fits :
    (text sought replacement : List ℕ) (replace_all : Bool)
    → OnMatch (Fits (length text)) (find_fallback text sought replacement replace_all)
unfolding find_fallback
find_fallback-Fits text sought replacement replace_all =
    let P = Fits (length text) in
    if-OnMatch P replace_all _ _ tt (
      if-OnMatch P _ _ _
        (find_trimmed-Fits text sought _ (ends_line sought) replacement (length-split_lines _))
        (find_quotes-Fits text sought replacement))

find_exact-Fits :
    (text : List ℕ) (strategy : MatchStrategy) (sought replacement : List ℕ) (replace_all : Bool)
    (fallback : MatchResult)
    → OnMatch (Fits (length text)) fallback
    → OnMatch
        (Fits (length text))
        (find_exact text strategy sought replacement replace_all fallback)
unfolding find_exact
find_exact-Fits text strategy sought replacement replace_all fallback f =
    let offsets = exact_offsets text sought in
    let apart = exact_offsets-IsApart text sought in
    let n = length text in
    let size = length sought in
    unless_empty-OnMatch (Fits n) offsets _ _
      (result-Fits n text strategy _ replace_all (
        spans_at-disjoint 0 size n offsets replacement apart,
        spans_at-IsWithin 0 size n offsets replacement apart,
      ))
      f

find_inexact-Fits :
    (text sought : List ℕ) (stripped : Option (List ℕ)) (replacement : List ℕ) (replace_all : Bool)
    → OnMatch (Fits (length text)) (find_inexact text sought stripped replacement replace_all)
unfolding find_inexact
find_inexact-Fits text sought none replacement replace_all =
    find_fallback-Fits text sought replacement replace_all
find_inexact-Fits text sought (some stripped) replacement replace_all =
    find_exact-Fits text line_numbers_stripped stripped _ replace_all _
      (find_fallback-Fits text stripped _ replace_all)

-- Whatever strategy matches: the splices lie in the text, and each of them starts where the one
-- before it ends, or later.
pub find_edit_match-Fits :
    (text sought replacement : List ℕ) (replace_all : Bool)
    → OnMatch (Fits (length text)) (find_edit_match text sought replacement replace_all)
unfolding find_edit_match
find_edit_match-Fits text sought replacement replace_all =
    find_exact-Fits text exact sought replacement replace_all _
      (find_inexact-Fits text sought (strip_gutter sought) replacement replace_all)
