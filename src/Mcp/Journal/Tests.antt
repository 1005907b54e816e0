-- ===== src/Mcp/Journal/Tests.antt =====
-- Concrete runs of the journal, and the theorems at them.
use mathlib.Core.Option.{none, some}
use mini_dsh.Common.{◌≡◌, refl, false, List, [], ◌∷◌, ◌++◌, arith, if◌then◌else◌, inr, All, ◌≢◌, ℕ}
use mini_dsh.Common.Dict
use mini_dsh.Common.Keys
use mini_dsh.Common.Units.{units}
use mini_dsh.Mcp.Journal.{
  DispatchIntent, TerminalRecord, success, dispatch_intent, Stored, Journal, new_journal, Write,
  owner, in_flight, ended, integrity, reserve, append_intent, intent_refusal, intent_written,
  append_terminal, terminal_written, write_line, bind_intent, bind_terminal, intent_key, same_key,
  key_conflict, stamp, release, terminalize_unresolved, has_terminal, faulted, remember,
}
use mini_dsh.Mcp.Journal.Unresolved.{terminalize_unresolved_lem, recovered_terminal}
use mini_dsh.Mcp.Journal.Recovery.{Codec, open_journal, disk_text, file_text, IsPrinted, line_of}
use mini_dsh.Mcp.Journal.Mirror.{reopen_after_crash}
use mini_dsh.Mcp.Journal.Queue.{
  Call, reserves, intends, ends, settles, queue_append, settle_write, settle_first, apply,
  apply_all, new_client,
}

abbrev pub call_1 : DispatchIntent
call_1 = record {
  invocation_id = "call-1";
  workspace_id = "w";
  server = "files";
  tool = "read";
  args_hash = "a1";
  generation = 1;
  epoch = 1;
  config_revision = 3;
  secret_revision = 0;
  policy_revision = none;
}

abbrev pub other_args : DispatchIntent
other_args = record call_1 { args_hash = "b2" }

abbrev pub written : Write
written = record { at = 5; failure = none; left = 0 }

abbrev pub disk_full : Write
disk_full = record { at = 6; failure = some "disk full"; left = 1 }

abbrev read_done : TerminalRecord
read_done = record {
  invocation_id = "call-1";
  outcome = success;
  output_hash = "h";
  detail = units "text";
}

abbrev opened : Journal
opened = (append_intent written call_1 (reserve call_1 new_journal).1).1

unfoldable pub runs : Unit {0}
unfolding units reserve append_intent intent_refusal intent_written append_terminal terminal_written
    write_line bind_intent bind_terminal intent_key same_key key_conflict stamp new_journal release
    has_terminal faulted remember Keys.mem Keys.add Keys.remove Dict.get Dict.set Dict.delete
runs = tt

claims :
    ((reserve call_1 new_journal).0 ≡ owner)
    × ((reserve call_1 (reserve call_1 new_journal).1).0 ≡ in_flight)
    × ((reserve other_args (reserve call_1 new_journal).1).0 ≡ integrity)
    × ((reserve call_1 (append_terminal written read_done opened).1).0 ≡ ended)
unfolding runs
claims = (refl, refl, refl, refl)

terminalize_unresolved_lem_example :
    let r = terminalize_unresolved (λ s. s) (λ id. written) opened in
    (r.0 ≡ none)
    × (Keys.mem "call-1" r.1.open_intents ≡ false)
    × (has_terminal "call-1" r.1 ≡ (
        if Keys.mem "call-1" opened.open_intents
        then some recovered_terminal
        else has_terminal "call-1" opened))
unfolding runs
terminalize_unresolved_lem_example =
    terminalize_unresolved_lem (λ s. s) (λ id. written) (λ id. refl) opened "call-1" refl

abbrev calls : List Call
calls = reserves call_1 ∷ intends call_1 ∷ settles written ∷ ends read_done ∷ settles disk_full ∷ []

abbrev first_line : Stored
first_line = record { v = 1; seq = 1; at = 5; body = dispatch_intent call_1 }

-- A codec for the one record that the calls commit: its text is the single character 49.
abbrev codec : Codec
codec = record {
  encode = λ s d. 49 ∷ [];
  parse = λ line. some (first_line, "d1");
  digest_of = λ s. "d1";
}

first_line-IsPrinted : IsPrinted codec first_line
first_line-IsPrinted = record {
  parse-encode = refl;
  one_line = omega arith;
  nonempty = ground arith;
}

-- The failed write has left the one unit of its text.
torn : All {A = ℕ} (λ c. c ≢ 10) (49 ∷ [])
torn = (ground arith, tt)

reopen_after_crash_example :
    let j = (apply_all calls new_client).journal in
    let r = open_journal codec (disk_text codec j ++ 50 ∷ []) in
    (r.0 ≡ none)
    × (r.1.seq ≡ j.seq)
    × (r.1.terminals ≡ j.terminals)
    × (r.1.open_intents ≡ j.open_intents)
    × (r.2 ≡ file_text codec j.file)
unfolding runs apply_all apply queue_append settle_first settle_write new_client line_of
reopen_after_crash_example =
    reopen_after_crash codec calls (50 ∷ []) (first_line-IsPrinted, tt) (inr (refl, torn), tt)
      (omega arith)
