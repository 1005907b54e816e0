-- ===== src/Session/EventFile/Crash.antt =====
-- What a crash in the middle of an append leaves behind, and what `readEventLog` makes of it.
use mini_dsh.Common.{
  ℕ, zero, suc, ◌+◌, ◌≡◌, refl, ap, sym, ◌∙◌, ◌≢◌, true, false, not, Option, none, some, List, [],
  ◌∷◌, ◌++◌, eqb, ltb, if◌then◌else◌, length, length-append, take, All, any, arith, Bool-cases, inl,
  inr,
}
use mini_dsh.Common.Units.{
  split_lines, split_lines-line, split_lines_one, ends_line_not, IsOneLine, take-append,
  drop-append, take-append-le, take-ge, take_some, All-take, All-snoc, length-some,
}
use mathlib.Core.List.{append_assoc, append-nil}
use mini_dsh.Session.{SessionEvent}
use mini_dsh.Session.Forks.{IsNumbered, IsNumbered-snoc}
use mini_dsh.Session.EventFile.{
  Json, IsPrinted, corruption, failed, torn_at, complete, throws, returns, LogFiles, Repair,
  repairs, to_record, corrupt_line, unparsed, drop_empty_tail, read_lines, read_found,
  read_contents, read_event_log, finish_read, quarantine_tail, terminate_last_line,
  encode_event_line, text_of,
}
use mini_dsh.Session.EventFile.Reading.{read_lines-line_texts}
use mini_dsh.Session.EventFile.Lines.{
  cons_line_lem, drop_empty_tail-cons, lines_left, text_of_snoc, finish_whole, scan_text,
}

module _ (json : Json) where
  read_whole :
      (events : List SessionEvent) (files : LogFiles)
      → All (IsPrinted json) events
      → IsNumbered 0 events
      → read_found json repairs (text_of json events) files ≡ (returns events false, files)
  unfolding read_found
  read_whole events files p v =
      let scan = scan_text json events [] p v in
      let same = append-nil (text_of json events) in
      rw (simp same at scan) (finish_whole json events events files)

  one_line_left :
      (line : List ℕ) → IsOneLine line → line ≢ [] → drop_empty_tail (split_lines line) ≡ line ∷ []
  unfolding drop_empty_tail
  one_line_left line one some_char = rw (split_lines_one line one) (cons_line_lem line [] some_char)

  read_lines_last :
      (i line_start : ℕ) (events : List SessionEvent) (line : List ℕ)
      → json.parse line ≡ none
      → read_lines json i line_start events (line ∷ []) ≡ torn_at events line_start
  unfolding read_lines unparsed
  read_lines_last i line_start events line h = ground (arith, h)

  read_torn :
      (events : List SessionEvent) (tail : List ℕ) (files : LogFiles)
      → All (IsPrinted json) events
      → IsNumbered 0 events
      → IsOneLine tail
      → tail ≢ []
      → json.parse tail ≡ none
      → read_found json repairs (text_of json events ++ tail) files ≡ (
        returns events true,
        record { contents = some (text_of json events); quarantine = some tail },
      )
  unfolding read_found finish_read quarantine_tail
  read_torn events tail files p v one some_char h =
      let text = text_of json events in
      let last = read_lines_last (length events) (length text) events tail h in
      rw (scan_text json events tail p v, one_line_left tail one some_char, last)
        (rw (take-append text tail, drop-append text tail) refl)

  finish_unterminated :
      (text line : List ℕ) (read : List SessionEvent) (files : LogFiles)
      → IsOneLine line
      → line ≢ []
      → finish_read repairs (text ++ line) files (complete read)
        ≡ (returns read false, record files { contents = some ((text ++ line) ++ 10 ∷ []) })
  unfolding finish_read terminate_last_line
  finish_unterminated text [] read files one some_char = ground (arith, some_char)
  finish_unterminated text (c ∷ line) read files one some_char =
      let len = length-append text (c ∷ line) in ground (arith, ends_line_not text c line one, len)

  read_unterminated :
      (events : List SessionEvent) (e : SessionEvent) (files : LogFiles)
      → All (IsPrinted json) events
      → IsPrinted json e
      → IsNumbered 0 events
      → e.seq ≡ suc (length events)
      → read_found json repairs (text_of json events ++ json.print (to_record e)) files ≡ (
        returns (events ++ e ∷ []) false,
        record files { contents = some (text_of json (events ++ e ∷ [])) },
      )
  unfolding read_found encode_event_line
  read_unterminated events e files p q v h =
      let line = json.print (to_record e) in
      let start = length (text_of json events) in
      let scan = scan_text json events line p v in
      let one = one_line_left line q.one_line q.nonempty in
      let read : read_lines json (length events) start events (line ∷ [])
          ≡ complete (events ++ e ∷ []) =
        read_lines-line_texts json start events (e ∷ []) [] (q, tt) (h, tt) in
      let whole =
        text_of_snoc json events e ∙ sym (append_assoc (text_of json events) line (10 ∷ [])) in
      rw (scan, one, read, whole)
        (finish_unterminated (text_of json events) line (events ++ e ∷ []) files q.one_line
          q.nonempty)

  -- A crash while the event `e` was appended left some of the characters of its line behind the
  -- lines of the numbered events before it, and its repair succeeds. If the object was cut, the read
  -- returns exactly the events before it, takes the torn part out of the log and keeps it verbatim;
  -- otherwise it returns `e` as well and the log ends with the whole line, newline included.
  pub crash_safe :
      (events : List SessionEvent) (e : SessionEvent) (k : ℕ)
      → All (IsPrinted json) events
      → IsPrinted json e
      → IsNumbered 0 events
      → e.seq ≡ suc (length events)
      → let left = take k (encode_event_line json e) in
        read_event_log json true repairs
          (record { contents = some (text_of json events ++ left); quarantine = none })
        ≡ (if ltb k (length (json.print (to_record e)))
            then (
              returns events (ltb 0 k),
              record {
                contents = some (text_of json events);
                quarantine = if ltb 0 k then some left else none;
              },
            )
            else (
              returns (events ++ e ∷ []) false,
              record { contents = some (text_of json (events ++ e ∷ [])); quarantine = none },
            ))
  unfolding read_event_log read_contents encode_event_line
  crash_safe events e zero p q v h =
      let some_char = length-some (json.print (to_record e)) q.nonempty in
      let all = append-nil (text_of json events) in
      rw all (read_whole events _ p v ∙ ground (arith, some_char))
  crash_safe events e (suc k) p q v h =
      let line = json.print (to_record e) in
      elim (Bool-cases (ltb (suc k) (length line))) [
        | inl cut ↦
            let some_char = take_some (suc k) line (omega arith) (ground (arith, cut)) in
            let one = All-take (λ c. c ≢ 10) (suc k) line q.one_line in
            let unparsed = q.torn (suc k) (omega arith) (ground (arith, cut)) in
            let left = take-append-le (suc k) line (10 ∷ []) (ground (arith, cut)) in
            rw (left, cut)
              (read_torn events (take (suc k) line) _ p v one some_char unparsed ∙ ground arith)
        | inr whole ↦ elim (Bool-cases (eqb (suc k) (length line))) [
          | inl same ↦
              let left =
                take-append-le (suc k) line (10 ∷ []) (ground (arith, same))
                ∙ take-ge (suc k) line (ground (arith, same)) in
              rw (left, whole) (read_unterminated events e _ p q v h)
          | inr more ↦
              let left =
                take-ge (suc k) (line ++ 10 ∷ [])
                  (ground (arith, whole, more, length-append line (10 ∷ []))) in
              let text : text_of json (events ++ e ∷ [])
                  ≡ text_of json events ++ (line ++ 10 ∷ []) =
                text_of_snoc json events e in
              rw (left, whole)
                (rw⁻¹ text (
                  read_whole (events ++ e ∷ []) _ (All-snoc (IsPrinted json) events e p q)
                    (IsNumbered-snoc 0 events e v (omega (arith, h)))))
        ]
      ]

  read_lines_corrupt :
      (i line_start : ℕ) (events : List SessionEvent) (line next : List ℕ) (lines : List (List ℕ))
      → json.parse line ≡ none
      → read_lines json i line_start events (line ∷ next ∷ lines)
        ≡ failed (record { kind = corruption; line_number = some (i + 1) })
  unfolding read_lines unparsed corrupt_line
  read_lines_corrupt i line_start events line next lines h = ground (arith, h)

  -- A line that does not parse, behind the lines of numbered events and before a text that holds
  -- more than newlines, makes the read throw a corruption error with the number of that line, and
  -- the files stay as they are.
  pub read_corrupt :
      (events : List SessionEvent) (line more : List ℕ) (how : Repair)
      (quarantine : Option (List ℕ))
      → All (IsPrinted json) events
      → IsNumbered 0 events
      → IsOneLine line
      → json.parse line ≡ none
      → any (λ c. not (eqb c 10)) more ≡ true
      → let files : LogFiles = record {
        contents = some (text_of json events ++ (line ++ 10 ∷ more));
        quarantine = quarantine;
      } in
        read_event_log json true how files
        ≡ (throws (record { kind = corruption; line_number = some (length events + 1) }), files)
  unfolding read_event_log read_contents read_found
  read_corrupt events line more how quarantine p v one h m =
      let (next, lines, e) = lines_left more m in
      let left =
        ap drop_empty_tail (split_lines-line line more one)
        ∙ drop_empty_tail-cons line (split_lines more) next lines e in
      let scan =
        read_lines_corrupt (length events) (length (text_of json events)) events line next lines
          h in
      rw (scan_text json events (line ++ 10 ∷ more) p v, left, scan) (unfold finish_read in refl)
