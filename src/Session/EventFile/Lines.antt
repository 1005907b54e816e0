-- ===== src/Session/EventFile/Lines.antt =====
-- The lines of a log's text, and the loop of `readEventLog` on them.
use mini_dsh.Common.{
  ℕ, ◌≡◌, refl, ap, sym, ◌∙◌, ◌≢◌, true, false, not, List, [], ◌∷◌, ◌++◌, eqb, length,
  length-append, All, any, arith, Bool-cases, inl, inr, ◌⊎◌,
}
use mini_dsh.Common.Units.{split_lines, split_lines-line, ends_line, ends_line-append, extend_line}
use mathlib.Core.List.{append_assoc, append-nil}
use mini_dsh.Session.{SessionEvent}
use mini_dsh.Session.Forks.{IsNumbered}
use mini_dsh.Session.EventFile.{
  Json, IsPrinted, complete, returns, LogFiles, repairs, to_record, cons_line, drop_empty_tail,
  read_lines, finish_read, encode_event_line, text_of,
}
use mini_dsh.Session.EventFile.Reading.{line_texts, text_length, read_lines-line_texts}

pub cons_line_lem :
    (line : List ℕ) (lines : List (List ℕ)) → line ≢ [] → cons_line line lines ≡ line ∷ lines
unfolding cons_line
cons_line_lem [] lines h = ground (arith, h)
cons_line_lem (c ∷ line) [] h = refl
cons_line_lem (c ∷ line) (next ∷ lines) h = refl

cons_line_rest :
    (line next : List ℕ) (lines : List (List ℕ))
    → cons_line line (next ∷ lines) ≡ line ∷ next ∷ lines
unfolding cons_line
cons_line_rest [] next lines = refl
cons_line_rest (c ∷ line) next lines = refl

pub drop_empty_tail-cons :
    (line : List ℕ) (rest : List (List ℕ)) (next : List ℕ) (lines : List (List ℕ))
    → drop_empty_tail rest ≡ next ∷ lines
    → drop_empty_tail (line ∷ rest) ≡ line ∷ next ∷ lines
unfolding drop_empty_tail
drop_empty_tail-cons line rest next lines e = rw e (cons_line_rest line next lines)

extend_line_left :
    (c : ℕ) (lines : List (List ℕ))
    → (next : List ℕ) × (rest : List (List ℕ)) × (drop_empty_tail (extend_line c lines)
        ≡ next ∷ rest)
unfolding extend_line drop_empty_tail
extend_line_left c [] = (_, _, unfold cons_line in refl)
extend_line_left c (line ∷ lines) =
    (_, _, cons_line_lem (c ∷ line) (drop_empty_tail lines) (ground arith))

-- A text with more than newlines has a line that is not empty.
pub lines_left :
    (text : List ℕ)
    → any (λ c. not (eqb c 10)) text ≡ true
    → (next : List ℕ) × (rest : List (List ℕ)) × (drop_empty_tail (split_lines text) ≡ next ∷ rest)
unfolding split_lines drop_empty_tail
lines_left [] h = ground (arith, h)
lines_left (c ∷ text) h = elim (Bool-cases (eqb c 10)) [
  | inl newline ↦
      let (next, rest, e) = lines_left text (ground (arith, newline, h)) in
      rw newline (rw e (_, _, cons_line_rest [] next rest))
  | inr other ↦ rw other (extend_line_left c (split_lines text))
]

module _ (json : Json) where
  split_lines-text_of :
      (events : List SessionEvent) (tail : List ℕ)
      → All (IsPrinted json) events
      → split_lines (text_of json events ++ tail) ≡ line_texts json events ++ split_lines tail
  unfolding text_of encode_event_line
  split_lines-text_of [] tail p = refl
  split_lines-text_of (e ∷ events) tail p =
      let line = json.print (to_record e) in
      simp append_assoc (
        rw
          (
            split_lines-line line (text_of json events ++ tail) p.0.one_line,
            split_lines-text_of events tail p.1,
          )
          refl)

  length-text_of :
      (events : List SessionEvent) → length (text_of json events) ≡ text_length json events
  unfolding text_of encode_event_line
  length-text_of [] = refl
  length-text_of (e ∷ events) =
      let line = json.print (to_record e) in
      omega (
        arith,
        length-append (line ++ 10 ∷ []) (text_of json events),
        length-append line (10 ∷ []),
        length-text_of events,
      )

  drop_empty_tail-line_texts :
      (events : List SessionEvent) (lines : List (List ℕ))
      → All (IsPrinted json) events
      → drop_empty_tail (line_texts json events ++ lines)
        ≡ line_texts json events ++ drop_empty_tail lines
  unfolding drop_empty_tail
  drop_empty_tail-line_texts [] lines p = refl
  drop_empty_tail-line_texts (e ∷ events) lines p =
      rw (drop_empty_tail-line_texts events lines p.1)
        (cons_line_lem (json.print (to_record e)) _ p.0.nonempty)

  pub text_of_snoc :
      (events : List SessionEvent) (e : SessionEvent)
      → text_of json (events ++ e ∷ []) ≡ text_of json events ++ encode_event_line json e
  unfolding text_of
  text_of_snoc [] e = append-nil (encode_event_line json e)
  text_of_snoc (x ∷ events) e = rw (text_of_snoc events e) (
      sym
        (append_assoc (encode_event_line json x) (text_of json events) (encode_event_line json e)))

  text_of_ends :
      (events : List SessionEvent)
      → (text_of json events ≡ []) ⊎ (ends_line (text_of json events) ≡ true)
  unfolding text_of encode_event_line ends_line
  text_of_ends [] = inl refl
  text_of_ends (e ∷ events) =
      let line = json.print (to_record e) in
      inr (elim (text_of_ends events) [
        | inl none_left ↦
            rw (none_left, append-nil (line ++ 10 ∷ [])) (ends_line-append line (10 ∷ []) refl)
        | inr ends ↦ ends_line-append (line ++ 10 ∷ []) (text_of json events) ends
      ])

  pub finish_whole :
      (events read : List SessionEvent) (files : LogFiles)
      → finish_read repairs (text_of json events) files (complete read)
        ≡ (returns read false, files)
  unfolding finish_read
  finish_whole events read files = elim (text_of_ends events) [
    | inl none_left ↦ rw none_left refl
    | inr ends ↦ rw ends (ground arith)
  ]

  -- The loop on the text of a log with a tail.
  pub scan_text :
      (events : List SessionEvent) (tail : List ℕ)
      → All (IsPrinted json) events
      → IsNumbered 0 events
      → read_lines json 0 0 [] (drop_empty_tail (split_lines (text_of json events ++ tail)))
        ≡ read_lines json
            (length events)
            (length (text_of json events))
            events
            (drop_empty_tail (split_lines tail))
  scan_text events tail p v =
      rw
        (
          split_lines-text_of events tail p,
          drop_empty_tail-line_texts events (split_lines tail) p,
          length-text_of events,
        )
        (read_lines-line_texts json 0 [] events (drop_empty_tail (split_lines tail)) p v
          ∙ ap (λ n. read_lines json (length events) n events (drop_empty_tail (split_lines tail)))
              (omega arith))
