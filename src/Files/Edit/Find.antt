-- ===== src/Files/Edit/Find.antt =====
-- `findEditMatch`: the strategies, in their order.
use mini_dsh.Common.{
  ℕ, Bool, false, not, Option, none, some, List, [], ◌∷◌, map, ltb, if◌then◌else◌, length, or_else,
  any,
}
use mini_dsh.Common.Units.{split_lines, ends_line}
use mini_dsh.Files.Document.{drop_last, Splice}
use mini_dsh.Files.Edit.{
  MatchStrategy, exact, line_numbers_stripped, trailing_whitespace, indentation, quotes,
  MatchResult, not_found, exact_offsets, strip_gutter, line_starts, LineBlock, line_splice,
  find_blocks, straight_quotes, result, spans_at, same_lines, indent_spans,
}
use mini_dsh.Files.Edit.Lines.{trim_end, is_blank, common_indent, dedent}

unfoldable pub find_quotes : List ℕ → List ℕ → List ℕ → MatchResult
unfolding exact_offsets straight_quotes spans_at result
find_quotes text sought replacement =
    let plain = straight_quotes sought in
    result text quotes
      (spans_at (exact_offsets (straight_quotes text) plain) (length plain) replacement) false

unfoldable pub same_indented : List (List ℕ) → List (List ℕ) → Bool
unfolding same_lines dedent common_indent
same_indented normalized candidate =
    same_lines (map trim_end (dedent candidate (common_indent candidate))) normalized

unfoldable pub same_trimmed : List (List ℕ) → List (List ℕ) → Bool
unfolding same_lines
same_trimmed wanted candidate = same_lines (map trim_end candidate) wanted

-- The result of a strategy, unless it found nothing.
unfoldable pub unless_empty {ℓ} : {A : Type ℓ} → List A → MatchResult → MatchResult → MatchResult
unless_empty [] found fallback = fallback
unless_empty (x ∷ xs) found fallback = found

unfoldable pub find_indented : List ℕ → List ℕ → List (List ℕ) → Bool → List ℕ → MatchResult
unfolding find_quotes find_blocks indent_spans result unless_empty
find_indented text sought lines consumes_newline replacement =
    let search_indent = common_indent lines in
    let normalized = map trim_end (dedent lines search_indent) in
    let file_lines = split_lines text in
    let blocks = find_blocks file_lines normalized (same_indented normalized) in
    let spans = indent_spans text file_lines consumes_newline replacement search_indent blocks in
    let fallback = find_quotes text sought replacement in
    if ltb 1 (length lines)
    then unless_empty blocks (result text indentation spans false) fallback
    else fallback

unfoldable pub line_spans : List ℕ → Bool → List ℕ → List LineBlock → List Splice
unfolding line_splice line_starts
line_spans text consumes_newline replacement [] = []
line_spans text consumes_newline replacement (found ∷ blocks) =
    line_splice text (line_starts text) found consumes_newline replacement
    ∷ line_spans text consumes_newline replacement blocks

unfoldable pub find_trimmed : List ℕ → List ℕ → List (List ℕ) → Bool → List ℕ → MatchResult
unfolding find_indented find_blocks line_spans result unless_empty
find_trimmed text sought lines consumes_newline replacement =
    let wanted = map trim_end lines in
    let blocks = find_blocks (split_lines text) wanted (same_trimmed wanted) in
    let spans = line_spans text consumes_newline replacement blocks in
    unless_empty blocks (result text trailing_whitespace spans false)
      (find_indented text sought lines consumes_newline replacement)

-- The fallbacks behind the exact matches.
unfoldable pub find_fallback : List ℕ → List ℕ → List ℕ → Bool → MatchResult
unfolding find_trimmed find_quotes
find_fallback text sought replacement replace_all =
    let trailing_newline = ends_line sought in
    let lines = split_lines (if trailing_newline then drop_last sought else sought) in
    if replace_all
    then not_found
    else if any (λ line. not (is_blank line)) lines
    then find_trimmed text sought lines trailing_newline replacement
    else find_quotes text sought replacement

-- The matches of a text, or what a fallback finds.
unfoldable pub find_exact :
    List ℕ → MatchStrategy → List ℕ → List ℕ → Bool → MatchResult → MatchResult
unfolding spans_at result exact_offsets unless_empty
find_exact text strategy sought replacement replace_all fallback =
    let offsets = exact_offsets text sought in
    unless_empty offsets
      (result text strategy (spans_at offsets (length sought) replacement) replace_all) fallback

-- The steps behind the first, with the searched text without its gutter, if it has one.
unfoldable pub find_inexact : List ℕ → List ℕ → Option (List ℕ) → List ℕ → Bool → MatchResult
unfolding find_exact find_fallback strip_gutter
find_inexact text sought none replacement replace_all =
    find_fallback text sought replacement replace_all
find_inexact text sought (some stripped) replacement replace_all =
    let stripped_replacement = or_else (strip_gutter replacement) replacement in
    find_exact text line_numbers_stripped stripped stripped_replacement replace_all
      (find_fallback text stripped stripped_replacement replace_all)

-- `findEditMatch`.
unfoldable pub find_edit_match : List ℕ → List ℕ → List ℕ → Bool → MatchResult
unfolding find_inexact find_exact strip_gutter
find_edit_match text sought replacement replace_all =
    find_exact text exact sought replacement replace_all
      (find_inexact text sought (strip_gutter sought) replacement replace_all)
