-- ===== src/Files/Edit.antt =====
-- capabilities/fs/edit-match.ts: where the text of an edit stands in a document. The hint of a match
-- that fails is left out.
use mini_dsh.Common.{
  ℕ, zero, suc, ◌+◌, ◌-◌, ◌≤◌, Bool, true, false, not, ◌&&◌, ◌||◌, Option, none, some, List, [],
  ◌∷◌, ◌++◌, map, eqb, ltb, leb, if◌then◌else◌, length, take, drop, get_elem?, or_else, keep, any,
  every, is_some,
}
use mini_dsh.Common.Units.{split_lines, ends_line, join_lines}
use mini_dsh.Files.Document.{Splice, starts_with, fold_eol, drop_last}
pub mod Lines
pub mod Find
mod Offsets
mod LineSpans
pub mod Fitting
pub mod Spans
pub mod Applied
mod Tests
use Lines.{
  trim_start, trim_end, is_blank, same_text, strip_gutter_line, leading_whitespace, common_indent,
  dedent,
}

pub data MatchStrategy : Type 0 where
  exact : MatchStrategy
  line_numbers_stripped : MatchStrategy
  trailing_whitespace : MatchStrategy
  indentation : MatchStrategy
  quotes : MatchStrategy

pub data MatchResult : Type 0 where
  matched : MatchStrategy → List Splice → MatchResult
  ambiguous : MatchStrategy → List ℕ → MatchResult
  not_found : MatchResult

-- `indexOf`, of a text that is not empty.
unfoldable pub index_of : List ℕ → List ℕ → Option ℕ
unfolding starts_with
index_of [] search_text = none
index_of (c ∷ text) search_text =
    let rest = index_of text search_text in
    if starts_with (c ∷ text) search_text
    then some 0
    else elim rest [ none ↦ none | some index ↦ some (suc index) ]

-- The loop of `exactOffsets` on the text behind position `base`, on fuel.
unfoldable pub offsets_loop : ℕ → ℕ → List ℕ → List ℕ → Option (List ℕ)
unfolding index_of
offsets_loop zero base text search_text = none
offsets_loop (suc fuel) base text search_text = elim (index_of text search_text) [
  | none ↦ some []
  | some index ↦
      elim (offsets_loop fuel (base + index + length search_text)
        (drop (index + length search_text) text) search_text) [
          | none ↦ none
          | some found ↦ some ((base + index) ∷ found)
        ]
]

unfoldable pub exact_offsets : List ℕ → List ℕ → List ℕ
unfolding offsets_loop
exact_offsets text [] = []
exact_offsets text (c ∷ search_text) =
    or_else (offsets_loop (length text + 1) 0 text (c ∷ search_text)) []

unfoldable pub strip_line : List ℕ → List ℕ
strip_line line = or_else (strip_gutter_line line) line

unfoldable pub is_line : List ℕ → Bool
is_line [] = false
is_line (c ∷ line) = true

unfoldable pub strip_gutter : List ℕ → Option (List ℕ)
unfolding strip_line is_line
strip_gutter value =
    let lines = split_lines value in
    let content = keep is_line lines in
    if ltb 0 (length content) && every (λ line. is_some (strip_gutter_line line)) content
    then some (join_lines (map strip_line lines))
    else none

unfoldable pub newlines : ℕ → List ℕ → List ℕ
newlines index [] = []
newlines index (c ∷ text) =
    let rest = newlines (suc index) text in if eqb c 10 then index ∷ rest else rest

unfoldable pub count_lines : List ℕ → ℕ → ℕ → ℕ
count_lines [] offset line = line
count_lines (index ∷ indices) offset line =
    let rest = count_lines indices offset (line + 1) in if ltb index offset then rest else line

-- `lineOf`.
unfoldable pub line_of : List ℕ → ℕ → ℕ
unfolding newlines count_lines
line_of text offset = count_lines (newlines 0 text) offset 1

unfoldable pub line_starts : List ℕ → List ℕ
unfolding newlines
line_starts text = 0 ∷ map suc (newlines 0 text)

pub record LineBlock : Type 0 where
  pub start_line : ℕ
  pub count : ℕ

-- The end of a span whose next line starts at `next_start`, if there is one.
unfoldable pub span_end : List ℕ → Bool → Option ℕ → ℕ
span_end text with_newline none = length text
span_end text with_newline (some next_start) = if with_newline then next_start else next_start - 1

unfoldable pub line_splice : List ℕ → List ℕ → LineBlock → Bool → List ℕ → Splice
unfolding span_end
line_splice text starts block consumes_newline replacement =
    let start = or_else (get_elem? starts block.start_line) (length text) in
    let end = span_end text consumes_newline (get_elem? starts (block.start_line + block.count)) in
    let had_newline = consumes_newline && eqb (or_else (get_elem? text (end - 1)) 0) 10 in
    record {
      start = start;
      end = end;
      text =
          if consumes_newline && not had_newline && ends_line replacement
          then drop_last replacement
          else replacement;
    }

-- The loop of `findBlocks` from line `index` on, where `lines` are left.
unfoldable pub blocks_from : (List (List ℕ) → Bool) → ℕ → ℕ → List (List ℕ) → List LineBlock
blocks_from same count index [] = []
blocks_from same count index (line ∷ lines) =
    let rest = blocks_from same count (suc index) lines in
    if leb count (length (line ∷ lines))
    then (if same (take count (line ∷ lines))
        then record { start_line = index; count = count } ∷ rest
        else rest)
    else []

-- `findBlocks`, for a search of at least one line.
unfoldable pub find_blocks : List (List ℕ) → List (List ℕ) → (List (List ℕ) → Bool) → List LineBlock
unfolding blocks_from
find_blocks file_lines search_text same = blocks_from same (length search_text) 0 file_lines

unfoldable pub straight_quote : ℕ → ℕ
straight_quote c =
    if eqb c 8216 || eqb c 8217 then 39 else if eqb c 8220 || eqb c 8221 then 34 else c

unfoldable pub straight_quotes : List ℕ → List ℕ
unfolding straight_quote
straight_quotes value = map straight_quote value

unfoldable pub reindent_line : List ℕ → List ℕ → List ℕ → List ℕ
unfolding starts_with
reindent_line from to line =
    if is_blank line
    then line
    else if starts_with line from
    then to ++ drop (length from) line
    else to ++ trim_start line

unfoldable pub reindent : List ℕ → List ℕ → List ℕ → List ℕ
unfolding reindent_line
reindent replacement from to =
    if same_text from to
    then replacement
    else join_lines (map (reindent_line from to) (split_lines replacement))

unfoldable pub result : List ℕ → MatchStrategy → List Splice → Bool → MatchResult
unfolding line_of
result text strategy [] replace_all = not_found
result text strategy (s ∷ spans) replace_all =
    if ltb 0 (length spans) && not replace_all
    then ambiguous strategy (map (λ span. line_of text span.start) (s ∷ spans))
    else matched strategy (s ∷ spans)

-- Occurrences of a text of the length `size`, replaced by another.
unfoldable pub spans_at : List ℕ → ℕ → List ℕ → List Splice
spans_at [] size replacement = []
spans_at (start ∷ offsets) size replacement =
    record { start = start; end = start + size; text = replacement }
    ∷ spans_at offsets size replacement

-- Whether the lines of a block are the wanted ones.
unfoldable pub same_lines : List (List ℕ) → List (List ℕ) → Bool
same_lines [] wanted = true
same_lines (line ∷ lines) [] = false
same_lines (line ∷ lines) (want ∷ wanted) = same_text line want && same_lines lines wanted

unfoldable pub indent_spans :
    List ℕ → List (List ℕ) → Bool → List ℕ → List ℕ → List LineBlock → List Splice
unfolding line_splice reindent
indent_spans text file_lines consumes_newline replacement search_indent [] = []
indent_spans text file_lines consumes_newline replacement search_indent (found ∷ blocks) =
    let file_indent = common_indent (take found.count (drop found.start_line file_lines)) in
    line_splice text (line_starts text) found consumes_newline
      (reindent replacement search_indent file_indent)
    ∷ indent_spans text file_lines consumes_newline replacement search_indent blocks
