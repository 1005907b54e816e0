-- ===== src/Session/EventFile/Tests.antt =====
-- A log of one event and the lines of a second, under a small stand-in for JSON.
use mini_dsh.Common.{
  ℕ, zero, suc, ◌≡◌, refl, true, Option, none, some, List, [], ◌∷◌, ◌++◌, eqb, if◌then◌else◌, take,
  arith, or_else, All, ◌<◌, ◌≢◌, ◌&&◌,
}
use mini_dsh.Session.{SessionEvent, session_pinned}
use mini_dsh.Session.EventFile.{
  Json, IsPrinted, RawRecord, Parsed, object, corruption, throws, returns, repairs, fails_half_way,
  LogFiles, to_record, encode_event_line, text_of, read_event_log,
}
use mini_dsh.Session.EventFile.Reading.{ReadIsNumbered, read_event_log-IsNumbered}
use mini_dsh.Session.EventFile.Crash.{crash_safe, read_corrupt}

abbrev event : ℕ → SessionEvent
event seq = record { seq = seq; timestamp = 100; body = session_pinned true }

abbrev read_back : ℕ → RawRecord
read_back seq = record {
  v = some 1;
  body = some (session_pinned true);
  seq = some seq;
  timestamp = some 100;
}

-- A stand-in for JSON: the number of the event between braces.
abbrev print : RawRecord → List ℕ
print r = 123 ∷ or_else r.seq 0 ∷ 125 ∷ []

abbrev parse : List ℕ → Option Parsed
parse (a ∷ b ∷ c ∷ []) = if eqb a 123 && eqb c 125 then some (object (read_back b)) else none
parse _ = none

abbrev json : Json
json = record { print = print; parse = parse }

torn_print : (seq k : ℕ) → 0 < k → k < 3 → parse (take k (print (to_record (event seq)))) ≡ none
torn_print seq zero h l = ground (arith, h)
torn_print seq (suc zero) h l = refl
torn_print seq (suc (suc zero)) h l = refl
torn_print seq (suc (suc (suc k))) h l = ground (arith, l)

event-IsPrinted : (seq : ℕ) → seq ≢ 10 → IsPrinted json (event seq)
unfolding to_record
event-IsPrinted seq h = record {
  parse-print = refl;
  one_line = (ground arith, (h, (ground arith, tt)));
  nonempty = ground arith;
  torn = torn_print seq;
}

abbrev first : List SessionEvent
first = event 1 ∷ []

first-IsPrinted : All (IsPrinted json) first
first-IsPrinted = (event-IsPrinted 1 (ground arith), tt)

crash_safe_example :
    read_event_log json true repairs (record {
      contents = some (text_of json first ++ take 2 (encode_event_line json (event 2)));
      quarantine = none;
    })
    ≡ (
      returns first true,
      record {
        contents = some (text_of json first);
        quarantine = some (take 2 (encode_event_line json (event 2)));
      },
    )
unfolding to_record
crash_safe_example =
    crash_safe json first (event 2) 2 first-IsPrinted (event-IsPrinted 2 (ground arith)) (refl, tt)
      refl

read_corrupt_example :
    let files : LogFiles = record {
      contents = some (text_of json first ++ ((65 ∷ []) ++ 10 ∷ 65 ∷ []));
      quarantine = none;
    } in
    read_event_log json true fails_half_way files
    ≡ (throws (record { kind = corruption; line_number = some 2 }), files)
read_corrupt_example =
    read_corrupt json first (65 ∷ []) (65 ∷ []) fails_half_way none first-IsPrinted (refl, tt)
      (ground arith, tt) refl refl

abbrev unterminated : LogFiles
unterminated = record { contents = some (print (read_back 1)); quarantine = none }

read_event_log-IsNumbered_example : ReadIsNumbered (read_event_log json true repairs unterminated).0
read_event_log-IsNumbered_example = read_event_log-IsNumbered json true repairs unterminated
