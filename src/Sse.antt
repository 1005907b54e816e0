-- ===== src/Sse.antt =====
-- harness/mcp/sse-parser.ts: the incremental reader of server-sent events. Texts are lists of code
-- units; the byte length of a chunk is an argument.
pub mod Chunks
pub mod Tests
use mini_dsh.Common.Units.{join_lines}
use mini_dsh.Common.{
  ℕ, zero, suc, ◌+◌, Bool, true, false, ◌&&◌, Option, none, some, List, [], ◌∷◌, ◌++◌, eqb, ltb,
  if◌then◌else◌, length,
}

abbrev pub max_sse_bytes : ℕ
max_sse_bytes = 2_097_152

-- What follows `\n`, and `\r?\n`, at the start of the text.
unfoldable pub skip_lf : List ℕ → Option (List ℕ)
skip_lf [] = none
skip_lf (c ∷ s) = if eqb c 10 then some s else none

unfoldable pub skip_newline : List ℕ → Option (List ℕ)
unfolding skip_lf
skip_newline [] = none
skip_newline (c ∷ s) = if eqb c 10 then some s else if eqb c 13 then skip_lf s else none

-- What follows `\r?\n\r?\n` at the start of the text.
unfoldable pub boundary : List ℕ → Option (List ℕ)
unfolding skip_newline
boundary s = elim (skip_newline s) [ none ↦ none | some rest ↦ skip_newline rest ]

-- The text before the first boundary, and the text behind it.
unfoldable pub find_frame : List ℕ → Option (List ℕ × List ℕ)
unfolding boundary
find_frame [] = none
find_frame (c ∷ s) = elim (boundary (c ∷ s)) [
  | some rest ↦ some ([], rest)
  | none ↦ elim (find_frame s) [ none ↦ none | some (frame, rest) ↦ some (c ∷ frame, rest) ]
]

-- `split(/\r?\n/)`: the `\r` of a line end is dropped with it.
unfoldable pub extend_first : ℕ → List (List ℕ) → List (List ℕ)
extend_first c [] = (c ∷ []) ∷ []
extend_first c (line ∷ lines) = (c ∷ line) ∷ lines

abbrev starts_lf : List ℕ → Bool
starts_lf [] = false
starts_lf (c ∷ s) = eqb c 10

unfoldable pub split_lines : List ℕ → List (List ℕ)
unfolding extend_first
split_lines [] = [] ∷ []
split_lines (c ∷ s) =
    let lines = split_lines s in
    if eqb c 10 then [] ∷ lines else if eqb c 13 && starts_lf s then lines else extend_first c lines

-- The rest of a line behind `data:` and one space.
unfoldable pub strip_units : List ℕ → List ℕ → Option (List ℕ)
strip_units [] s = some s
strip_units (c ∷ prefix) [] = none
strip_units (c ∷ prefix) (d ∷ s) = let rest = strip_units prefix s in if eqb c d then rest else none

unfoldable pub strip_space : List ℕ → List ℕ
strip_space [] = []
strip_space (c ∷ s) = if eqb c 32 then s else c ∷ s

abbrev pub data_prefix : List ℕ
data_prefix = 100 ∷ 97 ∷ 116 ∷ 97 ∷ 58 ∷ []

unfoldable pub data_lines : List (List ℕ) → List (List ℕ)
unfolding strip_units strip_space
data_lines [] = []
data_lines (line ∷ lines) =
    let rest = data_lines lines in
    elim (strip_units data_prefix line) [ none ↦ rest | some s ↦ strip_space s ∷ rest ]

unfoldable pub joined : List (List ℕ) → Option (List ℕ)
unfolding join_lines
joined [] = none
joined (line ∷ lines) = some (join_lines (line ∷ lines))

unfoldable pub data_of : List ℕ → Option (List ℕ)
unfolding split_lines data_lines joined
data_of frame = joined (data_lines (split_lines frame))

unfoldable pub add_event : Option (List ℕ) → List (List ℕ) → List (List ℕ)
add_event none events = events
add_event (some data_text) events = data_text ∷ events

-- The loop of `push`: the data of its events, and the buffer that is left. Each round drops a boundary
-- from the buffer, so its length is fuel enough.
unfoldable pub read_frames : ℕ → List ℕ → List (List ℕ) × List ℕ
unfolding find_frame data_of add_event
read_frames zero buffer = ([], buffer)
read_frames (suc n) buffer = elim (find_frame buffer) [
  | none ↦ ([], buffer)
  | some (frame, rest) ↦
      let (events, left) = read_frames n rest in (add_event (data_of frame) events, left)
]

pub record SseParser : Type 0 where
  pub buffer : List ℕ
  pub bytes : ℕ

-- The events of a chunk with its byte length, or `none` for the error that the limit is exceeded.
unfoldable pub push : ℕ → List ℕ → SseParser → Option (List (List ℕ)) × SseParser
unfolding read_frames
push size chunk p =
    let bytes = p.bytes + size in
    let text = p.buffer ++ chunk in
    let (events, left) = read_frames (length text) text in
    if ltb max_sse_bytes bytes
    then (none, record p { bytes = bytes })
    else (some events, record { buffer = left; bytes = bytes })
