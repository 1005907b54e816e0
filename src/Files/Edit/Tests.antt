-- ===== src/Files/Edit/Tests.antt =====
-- Edits of a small text: `x`, two spaces, `y` and `x`, on three lines.
use mini_dsh.Common.{ℕ, ◌+◌, ◌≡◌, refl, true, false, some, List, [], ◌∷◌, length, All, is_some}
use mini_dsh.Common.Units.{split_lines, extend_line, ends_line}
use mini_dsh.Files.Document.{
  TextDocument, utf8, document_of, drop_last, splice_document, starts_with,
}
use mini_dsh.Files.Edit.{
  exact, trailing_whitespace, matched, ambiguous, exact_offsets, offsets_loop, index_of,
  strip_gutter, strip_line, is_line, newlines, count_lines, line_of, line_starts, line_splice,
  span_end, find_blocks, blocks_from, result, spans_at, same_lines,
}
use mini_dsh.Files.Edit.Lines.{
  trim_end, cons_trimmed, is_space, is_blank, same_text, strip_gutter_line, strip_digits, is_digit,
}
use mini_dsh.Files.Edit.Find.{
  find_edit_match, find_inexact, find_exact, find_fallback, find_trimmed, unless_empty,
  same_trimmed, line_spans,
}
use mini_dsh.Files.Edit.Offsets.{exact_offsets_lem, IsApart, IsOccurrence}
use mini_dsh.Files.Edit.Fitting.{OnMatch, Fits}
use mini_dsh.Files.Edit.Spans.{find_edit_match-Fits}
use mini_dsh.Files.Edit.Applied.{edit_never_throws}

abbrev text : List ℕ
text = 120 ∷ 10 ∷ 121 ∷ 32 ∷ 10 ∷ 120 ∷ []

abbrev doc : TextDocument
doc = document_of text utf8 false true "h"

two_places : find_edit_match text (120 ∷ []) (122 ∷ []) false ≡ ambiguous exact (1 ∷ 3 ∷ [])
unfolding find_edit_match find_exact find_inexact unless_empty exact_offsets offsets_loop index_of
    starts_with result line_of newlines count_lines spans_at
two_places = refl

-- The searched line has no space at its end.
whole_line :
    find_edit_match text (121 ∷ 10 ∷ []) (122 ∷ 10 ∷ []) false
    ≡ matched trailing_whitespace (record { start = 2; end = 5; text = 122 ∷ 10 ∷ [] } ∷ [])
unfolding find_edit_match find_exact find_inexact find_fallback find_trimmed unless_empty
    exact_offsets offsets_loop index_of starts_with strip_gutter strip_line strip_gutter_line
    strip_digits is_digit is_line result newlines line_starts line_splice line_spans span_end
    find_blocks blocks_from same_trimmed same_lines same_text trim_end cons_trimmed is_space
    is_blank split_lines extend_line ends_line drop_last
whole_line = refl

exact_offsets_lem_example :
    let found = exact_offsets text (120 ∷ []) in
    (offsets_loop (length text + 1) 0 text (120 ∷ []) ≡ some found)
    × IsApart 0 (length {A = ℕ} (120 ∷ [])) (length text) found
    × All (IsOccurrence text (120 ∷ [])) found
exact_offsets_lem_example = exact_offsets_lem text 120 []

find_edit_match-Fits_example :
    OnMatch (Fits (length text)) (find_edit_match text (120 ∷ []) (122 ∷ []) true)
find_edit_match-Fits_example = find_edit_match-Fits text (120 ∷ []) (122 ∷ []) true

edit_never_throws_example :
    OnMatch
      (λ splices. is_some (splice_document doc splices) ≡ true)
      (find_edit_match doc.text (120 ∷ []) (122 ∷ []) true)
edit_never_throws_example = edit_never_throws text utf8 false true "h" (120 ∷ []) (122 ∷ []) true
