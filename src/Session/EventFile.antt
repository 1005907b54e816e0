-- ===== src/Session/EventFile.antt =====
-- The event log format of `harness/storage/events-jsonl.ts`: one line of JSON for each event, what
-- `readEventLog` accepts, and how it repairs a file that a crash left with a torn last line. JSON is
-- the parameter `Json`, and text is a list of code units.
use mini_dsh.Common.{
  ℕ, suc, ◌+◌, ◌<◌, ◌≡◌, ◌≢◌, Bool, true, false, not, ◌&&◌, ◌||◌, Option, none, some, List, [], ◌∷◌,
  ◌++◌, eqb, ltb, if◌then◌else◌, length, take, drop,
}
use mini_dsh.Common.Units.{split_lines, ends_line, IsOneLine}
use mini_dsh.Session.{SessionAppendedEvent, SessionEvent}
mod Reading
mod Lines
mod Crash
mod Tests

abbrev pub event_schema_version : ℕ
event_schema_version = 1

pub data SessionLogErrorKind : Type 0 where
  corruption : SessionLogErrorKind
  schema : SessionLogErrorKind
  io : SessionLogErrorKind

pub record SessionLogError : Type 0 where
  pub kind : SessionLogErrorKind
  pub line_number : Option ℕ

-- The fields of a JSON object that a reader looks at. A field is `none` where it is missing or not
-- of its type: `v` and `seq` a natural number, `body` the payload with a text as its `type`.
pub record RawRecord : Type 0 where
  pub v : Option ℕ
  pub body : Option SessionAppendedEvent
  pub seq : Option ℕ
  pub timestamp : Option ℕ

pub data Parsed : Type 0 where
  not_object : Parsed
  object : RawRecord → Parsed

-- `JSON.stringify`, and `JSON.parse` with `none` where it throws.
pub record Json : Type 0 where
  pub print : RawRecord → List ℕ
  pub parse : List ℕ → Option Parsed

unfoldable pub to_record : SessionEvent → RawRecord
to_record e = record {
  v = some event_schema_version;
  body = some e.body;
  seq = some e.seq;
  timestamp = some e.timestamp;
}

-- What JSON promises of a printed event: it is one line that is not empty, parsing gives the object
-- back, and no proper part of it from its start parses.
pub record IsPrinted (json : Json) (e : SessionEvent) : Type 0 where
  pub parse-print : json.parse (json.print (to_record e)) ≡ some (object (to_record e))
  pub one_line : IsOneLine (json.print (to_record e))
  pub nonempty : json.print (to_record e) ≢ []
  pub torn :
      (k : ℕ)
      → 0 < k
      → k < length (json.print (to_record e))
      → json.parse (take k (json.print (to_record e))) ≡ none

pub data Validated : Type 0 where
  invalid : SessionLogError → Validated
  valid : SessionEvent → Validated

unfoldable pub schema_error : ℕ → Validated
schema_error line_number = invalid (record { kind = schema; line_number = some line_number })

unfoldable pub validate_timestamp : SessionAppendedEvent → ℕ → Option ℕ → ℕ → Validated
unfolding schema_error
validate_timestamp body seq none line_number = schema_error line_number
validate_timestamp body seq (some timestamp) line_number =
    valid (record { seq = seq; timestamp = timestamp; body = body })

unfoldable pub validate_seq : SessionAppendedEvent → Option ℕ → Option ℕ → ℕ → Validated
unfolding schema_error validate_timestamp
validate_seq body none timestamp line_number = schema_error line_number
validate_seq body (some seq) timestamp line_number =
    if ltb seq 1
    then schema_error line_number
    else validate_timestamp body seq timestamp line_number

unfoldable pub validate_type : Option SessionAppendedEvent → Option ℕ → Option ℕ → ℕ → Validated
unfolding schema_error validate_seq
validate_type none seq timestamp line_number = schema_error line_number
validate_type (some body) seq timestamp line_number = validate_seq body seq timestamp line_number

unfoldable pub validate_version : Option ℕ → RawRecord → ℕ → Validated
unfolding schema_error validate_type
validate_version none r line_number = schema_error line_number
validate_version (some v) r line_number =
    if not (eqb v event_schema_version)
    then schema_error line_number
    else validate_type r.body r.seq r.timestamp line_number

unfoldable pub validate_record : Parsed → ℕ → Validated
unfolding schema_error validate_version
validate_record not_object line_number = schema_error line_number
validate_record (object r) line_number = validate_version r.v r line_number

-- How the loop over the lines ends: it throws, it stops at a torn last line that starts at some
-- position of the text, or it reads them all.
pub data Scan : Type 0 where
  failed : SessionLogError → Scan
  torn_at : List SessionEvent → ℕ → Scan
  complete : List SessionEvent → Scan

unfoldable pub corrupt_line : ℕ → Scan
corrupt_line line_number = failed (record { kind = corruption; line_number = some line_number })

-- The line `i + 1` does not parse: it is torn if it is the last one.
unfoldable pub unparsed : ℕ → ℕ → List SessionEvent → List (List ℕ) → Scan
unfolding corrupt_line
unparsed i line_start events [] = torn_at events line_start
unparsed i line_start events (line ∷ lines) = corrupt_line (i + 1)

unfoldable pub cons_line : List ℕ → List (List ℕ) → List (List ℕ)
cons_line [] [] = []
cons_line (c ∷ line) [] = (c ∷ line) ∷ []
cons_line line (next ∷ lines) = line ∷ next ∷ lines

-- The lines without the empty ones at the end.
unfoldable pub drop_empty_tail : List (List ℕ) → List (List ℕ)
unfolding cons_line
drop_empty_tail [] = []
drop_empty_tail (line ∷ lines) = cons_line line (drop_empty_tail lines)

-- The log and the file that a torn tail is kept in. No contents: the log does not exist.
pub record LogFiles : Type 0 where
  pub contents : Option (List ℕ)
  pub quarantine : Option (List ℕ)

-- What the file system makes of a repair: it can fail before anything is written, after the torn
-- tail is kept and before the log is changed, or after that.
pub data Repair : Type 0 where
  repairs : Repair
  fails_at_once : Repair
  fails_half_way : Repair
  fails_at_sync : Repair

-- `throws` an error, or `returns` the events and whether a torn tail was dropped.
pub data EventLogRead : Type 0 where
  throws : SessionLogError → EventLogRead
  returns : List SessionEvent → Bool → EventLogRead

abbrev pub io_error : EventLogRead
io_error = throws (record { kind = io; line_number = none })

unfoldable pub quarantine_tail :
    Repair → List ℕ → List ℕ → LogFiles → EventLogRead → EventLogRead × LogFiles
quarantine_tail repairs good_prefix torn_line files read =
    (read, record { contents = some good_prefix; quarantine = some torn_line })
quarantine_tail fails_at_once good_prefix torn_line files read = (io_error, files)
quarantine_tail fails_half_way good_prefix torn_line files read =
    (io_error, record files { quarantine = some torn_line })
quarantine_tail fails_at_sync good_prefix torn_line files read =
    (io_error, record { contents = some good_prefix; quarantine = some torn_line })

unfoldable pub terminate_last_line :
    Repair → List ℕ → LogFiles → EventLogRead → EventLogRead × LogFiles
terminate_last_line repairs raw files read =
    (read, record files { contents = some (raw ++ 10 ∷ []) })
terminate_last_line fails_at_once raw files read = (io_error, files)
terminate_last_line fails_half_way raw files read = (io_error, files)
terminate_last_line fails_at_sync raw files read =
    (io_error, record files { contents = some (raw ++ 10 ∷ []) })

unfoldable pub finish_read : Repair → List ℕ → LogFiles → Scan → EventLogRead × LogFiles
unfolding quarantine_tail terminate_last_line
finish_read how raw files (failed error) = (throws error, files)
finish_read how raw files (torn_at events line_start) =
    quarantine_tail how (take line_start raw) (drop line_start raw) files (returns events true)
finish_read how raw files (complete events) =
    if ltb 0 (length raw) && not (ends_line raw)
    then terminate_last_line how raw files (returns events false)
    else (returns events false, files)

module _ (json : Json) where
  -- `encodeEventLine`.
  unfoldable pub encode_event_line : SessionEvent → List ℕ
  unfolding to_record
  encode_event_line e = json.print (to_record e) ++ 10 ∷ []

  unfoldable pub read_lines : ℕ → ℕ → List SessionEvent → List (List ℕ) → Scan
  unfolding unparsed validate_record corrupt_line
  read_lines i line_start events [] = complete events
  read_lines i line_start events (line ∷ lines) = elim (json.parse line) [
    | none ↦ unparsed i line_start events lines
    | some parsed ↦ elim (validate_record parsed (i + 1)) [
      | invalid error ↦ failed error
      | valid e ↦ elim (eqb e.seq (length events + 1)) [
        | false ↦ corrupt_line (i + 1)
        | true ↦ read_lines (suc i) (line_start + (length line + 1)) (events ++ e ∷ []) lines
      ]
    ]
  ]

  unfoldable pub read_found : Repair → List ℕ → LogFiles → EventLogRead × LogFiles
  unfolding drop_empty_tail split_lines read_lines finish_read
  read_found how raw files =
      finish_read how raw files (read_lines 0 0 [] (drop_empty_tail (split_lines raw)))

  unfoldable pub read_contents :
      Option (List ℕ) → Bool → Repair → LogFiles → EventLogRead × LogFiles
  unfolding read_found
  read_contents none readable how files = (returns [] false, files)
  read_contents (some raw) readable how files =
      if readable then read_found how raw files else (io_error, files)

  -- `readEventLog`, where the file system can read the log or not.
  unfoldable pub read_event_log : Bool → Repair → LogFiles → EventLogRead × LogFiles
  unfolding read_contents
  read_event_log readable how files = read_contents files.contents readable how files

  -- The file that a writer has made of a list of events.
  unfoldable pub text_of : List SessionEvent → List ℕ
  unfolding encode_event_line
  text_of [] = []
  text_of (e ∷ events) = encode_event_line e ++ text_of events
