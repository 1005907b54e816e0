-- ===== src/Sse/Tests.antt =====
-- A frame that arrives in two chunks, cut inside its boundary.
use mini_dsh.Common.Units.{join_lines}
use mini_dsh.Common.{ℕ, ◌+◌, ◌≡◌, refl, none, some, List, [], ◌∷◌, ◌++◌, arith}
use mini_dsh.Sse.{
  SseParser, push, find_frame, read_frames, boundary, skip_newline, skip_lf, data_of, split_lines,
  extend_first, data_lines, strip_units, strip_space, joined, add_event,
}
use mini_dsh.Sse.Chunks.{events_of, push_split}

abbrev new_parser : SseParser
new_parser = record { buffer = []; bytes = 0 }

-- "data: a", "\r\n\r" and "\n:".
abbrev first_chunk : List ℕ
first_chunk = 100 ∷ 97 ∷ 116 ∷ 97 ∷ 58 ∷ 32 ∷ 97 ∷ 13 ∷ 10 ∷ 13 ∷ []

abbrev second_chunk : List ℕ
second_chunk = 10 ∷ 58 ∷ []

one_event :
    push 2 second_chunk (push 10 first_chunk new_parser).1
    ≡ (some ((97 ∷ []) ∷ []), record { buffer = 58 ∷ []; bytes = 12 })
unfolding push find_frame read_frames boundary skip_newline skip_lf data_of split_lines extend_first
    data_lines strip_units strip_space joined join_lines add_event
one_event = refl

push_split_example :
    let first = push 10 first_chunk new_parser in
    let second = push 2 second_chunk first.1 in
    let whole = push (10 + 2) (first_chunk ++ second_chunk) new_parser in
    (events_of whole.0 ≡ events_of first.0 ++ events_of second.0)
    × (second.1 ≡ whole.1)
    × (find_frame (whole.1).buffer ≡ none)
push_split_example = push_split 10 2 first_chunk second_chunk new_parser (omega arith)
