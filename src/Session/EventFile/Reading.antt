-- ===== src/Session/EventFile/Reading.antt =====
-- The loop of `readEventLog` over the lines of a log: the numbers it accepts, and what it makes of
-- lines that a writer printed.
use mini_dsh.Common.{
  ℕ, suc, ◌+◌, ◌<◌, ◌≡◌, refl, ◌∙◌, Bool, true, false, not, ◌&&◌, Option, none, some, List, [], ◌∷◌,
  ◌++◌, eqb, ltb, length, length-append, take, drop, All, map, arith, Option-cases, Bool-cases, inl,
  inr, ◌⊎◌,
}
use mini_dsh.Common.Units.{ends_line}
use mathlib.Core.List.{append_assoc, append-nil}
use mini_dsh.Session.{SessionEvent}
use mini_dsh.Session.Forks.{IsNumbered, IsNumbered-snoc}
use mini_dsh.Session.EventFile.{
  Json, SessionLogError, IsPrinted, object, Scan, failed, torn_at, complete, EventLogRead, throws,
  returns, LogFiles, Repair, repairs, fails_at_once, fails_half_way, fails_at_sync, Validated,
  valid, invalid, to_record, validate_record, validate_version, validate_type, validate_seq,
  validate_timestamp, corrupt_line, unparsed, read_lines, read_found, read_event_log, finish_read,
  quarantine_tail, terminate_last_line, read_contents,
}

-- The events that a scan read are numbered from 1 on.
abbrev ScanIsNumbered : Scan → Type 0
ScanIsNumbered (failed error) = Unit
ScanIsNumbered (torn_at events line_start) = IsNumbered 0 events
ScanIsNumbered (complete events) = IsNumbered 0 events

abbrev pub ReadIsNumbered : EventLogRead → Type 0
ReadIsNumbered (throws error) = Unit
ReadIsNumbered (returns events truncated) = IsNumbered 0 events

unparsed-IsNumbered :
    (i line_start : ℕ) (events : List SessionEvent) (lines : List (List ℕ))
    → IsNumbered 0 events
    → ScanIsNumbered (unparsed i line_start events lines)
unfolding unparsed corrupt_line
unparsed-IsNumbered i line_start events [] v = v
unparsed-IsNumbered i line_start events (line ∷ lines) v = tt

quarantine_tail-IsNumbered :
    (how : Repair) (good torn : List ℕ) (files : LogFiles) (events : List SessionEvent)
    → IsNumbered 0 events
    → ReadIsNumbered (quarantine_tail how good torn files (returns events true)).0
unfolding quarantine_tail
quarantine_tail-IsNumbered repairs good torn files events v = v
quarantine_tail-IsNumbered fails_at_once good torn files events v = tt
quarantine_tail-IsNumbered fails_half_way good torn files events v = tt
quarantine_tail-IsNumbered fails_at_sync good torn files events v = tt

terminate_last_line-IsNumbered :
    (how : Repair) (raw : List ℕ) (files : LogFiles) (events : List SessionEvent)
    → IsNumbered 0 events
    → ReadIsNumbered (terminate_last_line how raw files (returns events false)).0
unfolding terminate_last_line
terminate_last_line-IsNumbered repairs raw files events v = v
terminate_last_line-IsNumbered fails_at_once raw files events v = tt
terminate_last_line-IsNumbered fails_half_way raw files events v = tt
terminate_last_line-IsNumbered fails_at_sync raw files events v = tt

finish_read-IsNumbered :
    (how : Repair) (raw : List ℕ) (files : LogFiles) (scan : Scan)
    → ScanIsNumbered scan
    → ReadIsNumbered (finish_read how raw files scan).0
unfolding finish_read
finish_read-IsNumbered how raw files (failed error) v = tt
finish_read-IsNumbered how raw files (torn_at events k) v =
    quarantine_tail-IsNumbered how (take k raw) (drop k raw) files events v
finish_read-IsNumbered how raw files (complete events) v =
    elim (Bool-cases (ltb 0 (length raw) && not (ends_line raw))) [
      | inl e ↦ rw e (terminate_last_line-IsNumbered how raw files events v)
      | inr e ↦ rw e v
    ]

Validated-cases :
    (x : Validated)
    → ((error : SessionLogError) × (x ≡ invalid error)) ⊎ ((e : SessionEvent) × (x ≡ valid e))
Validated-cases (invalid error) = inl (error, refl)
Validated-cases (valid e) = inr (e, refl)

module _ (json : Json) where
  read_lines-IsNumbered :
      (i line_start : ℕ) (events : List SessionEvent) (lines : List (List ℕ))
      → IsNumbered 0 events
      → ScanIsNumbered (read_lines json i line_start events lines)
  unfolding read_lines
  read_lines-IsNumbered i line_start events [] v = v
  read_lines-IsNumbered i line_start events (line ∷ lines) v =
      elim (Option-cases (json.parse line)) [
        | inl n ↦
            rw (n, ScanIsNumbered, read_lines) (unparsed-IsNumbered i line_start events lines v)
        | inr (parsed, s) ↦ elim (Validated-cases (validate_record parsed (i + 1))) [
          | inl (error, f) ↦ rw (s, ScanIsNumbered, read_lines) (rw f tt)
          | inr (e, g) ↦ elim (Bool-cases (eqb e.seq (length events + 1))) [
            | inr f ↦ rw (s, ScanIsNumbered, read_lines) (rw (g, f) (unfold corrupt_line in tt))
            | inl t ↦
                let w = IsNumbered-snoc 0 events e v (ground (arith, t)) in
                rw (s, ScanIsNumbered, read_lines)
                  (rw (g, t)
                    (read_lines-IsNumbered (suc i) (line_start + (length line + 1))
                      (events ++ e ∷ []) lines w))
          ]
        ]
      ]

  read_found-IsNumbered :
      (how : Repair) (raw : List ℕ) (files : LogFiles)
      → ReadIsNumbered (read_found json how raw files).0
  unfolding read_found
  read_found-IsNumbered how raw files =
      finish_read-IsNumbered how raw files _ (read_lines-IsNumbered 0 0 [] _ tt)

  read_contents-IsNumbered :
      (contents : Option (List ℕ)) (readable : Bool) (how : Repair) (files : LogFiles)
      → ReadIsNumbered (read_contents json contents readable how files).0
  unfolding read_contents
  read_contents-IsNumbered none readable how files = tt
  read_contents-IsNumbered (some raw) false how files = tt
  read_contents-IsNumbered (some raw) true how files = read_found-IsNumbered how raw files

  -- Whatever the log file holds and however its repair goes: the events that a read returns are
  -- numbered 1, 2, 3 and so on.
  pub read_event_log-IsNumbered :
      (readable : Bool) (how : Repair) (files : LogFiles)
      → ReadIsNumbered (read_event_log json readable how files).0
  unfolding read_event_log
  read_event_log-IsNumbered readable how files =
      read_contents-IsNumbered files.contents readable how files

  validate_record_lem :
      (e : SessionEvent) (i : ℕ) → 0 < e.seq → validate_record (object (to_record e)) i ≡ valid e
  unfolding to_record validate_record validate_version validate_type validate_seq validate_timestamp
  validate_record_lem e i h = ground arith

  abbrev pub line_texts : List SessionEvent → List (List ℕ)
  line_texts = map (λ e. json.print (to_record e))

  abbrev pub text_length : List SessionEvent → ℕ
  text_length [] = 0
  text_length (e ∷ events) = length (json.print (to_record e)) + 1 + text_length events

  read_lines-cons :
      (i line_start : ℕ) (events : List SessionEvent) (e : SessionEvent) (lines : List (List ℕ))
      → IsPrinted json e
      → e.seq ≡ length events + 1
      → read_lines json i line_start events (json.print (to_record e) ∷ lines)
        ≡ read_lines json
            (suc i)
            (line_start + (length (json.print (to_record e)) + 1))
            (events ++ e ∷ [])
            lines
  unfolding read_lines
  read_lines-cons i line_start events e lines p h =
      ground (arith, p.parse-print, validate_record_lem e (i + 1) (omega (arith, h)))

  -- Lines that a writer printed are read, and the loop goes on behind them.
  pub read_lines-line_texts :
      (start : ℕ) (before events : List SessionEvent) (lines : List (List ℕ))
      → All (IsPrinted json) events
      → IsNumbered (length before) events
      → read_lines json (length before) start before (line_texts events ++ lines)
        ≡ read_lines json
            (length (before ++ events))
            (start + text_length events)
            (before ++ events)
            lines
  unfolding read_lines
  read_lines-line_texts start before [] lines p v =
      let same : start + 0 ≡ start = omega arith in rw (append-nil before, same) refl
  read_lines-line_texts start before (e ∷ events) lines p v =
      let next : length (before ++ e ∷ []) ≡ suc (length before) =
        length-append before (e ∷ []) ∙ omega arith in
      let len = length (json.print (to_record e)) in
      let at : start + (len + 1) + text_length events ≡ start + (len + 1 + text_length events) =
        omega arith in
      let rest =
        read_lines-line_texts (start + (len + 1)) (before ++ e ∷ []) events lines p.1
          (rw next v.1) in
      read_lines-cons (length before) start before e (line_texts events ++ lines) p.0
        (omega (arith, v.0))
      ∙ rw⁻¹ (next, append_assoc before (e ∷ []) events, at) rest
