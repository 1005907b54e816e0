-- ===== src/Files/Edit/Lines.antt =====
-- The lines of a searched text: white space, gutters and indentation.
use mini_dsh.Common.{
  ℕ, Bool, true, false, ◌&&◌, ◌||◌, Option, none, some, List, [], ◌∷◌, map, eqb, leb, if◌then◌else◌,
  length, drop, or_else,
}
use mini_dsh.Files.Document.{starts_with}

-- The characters that `trim` removes.
unfoldable pub is_space : ℕ → Bool
is_space c =
    (leb 9 c && leb c 13)
    || eqb c 32
    || eqb c 160
    || eqb c 5760
    || (leb 8192 c && leb c 8202)
    || eqb c 8232
    || eqb c 8233
    || eqb c 8239
    || eqb c 8287
    || eqb c 12288
    || eqb c 65279

unfoldable pub trim_start : List ℕ → List ℕ
unfolding is_space
trim_start [] = []
trim_start (c ∷ line) = let rest = trim_start line in if is_space c then rest else c ∷ line

unfoldable pub cons_trimmed : ℕ → List ℕ → List ℕ
unfolding is_space
cons_trimmed c [] = if is_space c then [] else c ∷ []
cons_trimmed c (d ∷ line) = c ∷ d ∷ line

unfoldable pub trim_end : List ℕ → List ℕ
unfolding cons_trimmed
trim_end [] = []
trim_end (c ∷ line) = cons_trimmed c (trim_end line)

-- `line.trim() === ''`.
unfoldable pub is_blank : List ℕ → Bool
unfolding is_space
is_blank [] = true
is_blank (c ∷ line) = is_space c && is_blank line

unfoldable pub same_text : List ℕ → List ℕ → Bool
same_text [] [] = true
same_text [] (d ∷ other) = false
same_text (c ∷ text) [] = false
same_text (c ∷ text) (d ∷ other) = eqb c d && same_text text other

unfoldable pub is_digit : ℕ → Bool
is_digit c = leb 48 c && leb c 57

-- The rest of the gutter `/^ *\d+\t/` behind a digit.
unfoldable pub strip_digits : List ℕ → Option (List ℕ)
unfolding is_digit
strip_digits [] = none
strip_digits (c ∷ line) =
    let rest = strip_digits line in if eqb c 9 then some line else if is_digit c then rest else none

-- The line behind its gutter, if it has one.
unfoldable pub strip_gutter_line : List ℕ → Option (List ℕ)
unfolding strip_digits is_digit
strip_gutter_line [] = none
strip_gutter_line (c ∷ line) =
    let rest = strip_gutter_line line in
    if eqb c 32 then rest else if is_digit c then strip_digits line else none

unfoldable pub leading_whitespace : List ℕ → List ℕ
leading_whitespace [] = []
leading_whitespace (c ∷ line) =
    let rest = leading_whitespace line in if eqb c 32 || eqb c 9 then c ∷ rest else []

-- The part that two texts have in common at their start.
unfoldable pub common_part : List ℕ → List ℕ → List ℕ
common_part [] indent = []
common_part (c ∷ common) [] = []
common_part (c ∷ common) (d ∷ indent) =
    let rest = common_part common indent in if eqb c d then c ∷ rest else []

unfoldable pub narrow : Option (List ℕ) → List ℕ → List ℕ
unfolding common_part
narrow none indent = indent
narrow (some common) indent = common_part common indent

-- The loop of `commonIndent`.
unfoldable pub indent_loop : Option (List ℕ) → List (List ℕ) → Option (List ℕ)
unfolding is_blank narrow leading_whitespace
indent_loop common [] = common
indent_loop common (line ∷ lines) =
    indent_loop (if is_blank line then common else some (narrow common (leading_whitespace line)))
      lines

unfoldable pub common_indent : List (List ℕ) → List ℕ
unfolding indent_loop
common_indent lines = or_else (indent_loop none lines) []

unfoldable pub dedent_line : List ℕ → List ℕ → List ℕ
unfolding starts_with trim_start
dedent_line indent line =
    if starts_with line indent then drop (length indent) line else trim_start line

unfoldable pub dedent : List (List ℕ) → List ℕ → List (List ℕ)
unfolding dedent_line
dedent lines indent = map (dedent_line indent) lines
