-- ===== src/Processes/Tests.antt =====
-- The registry with two processes of different sessions.
use mini_dsh.Common.{
  ◌≤◌, ◌≡◌, refl, String, none, some, List, [], ◌∷◌, take, length, ltb, ℕ, true, if◌then◌else◌,
}
use mathlib.Core.List.{flatten}
use mini_dsh.Common.Dict
use mini_dsh.Processes.{
  ProcessRecord, RegisterInput, Registry, RegistryLimits, new_registry, new_record, running_count,
  running_total, on_close, on_error, exited, failed, ended, kill, killed, was_killed,
}
use mini_dsh.Processes.Counting.{Happening, registers, kills, closes, history}
use mini_dsh.Processes.Caps.{history_caps}
use mini_dsh.Processes.Output.{cap_all, cap_all_lem}
use mini_dsh.Processes.Settling.{kill-close, error-close_twice}

abbrev limits : RegistryLimits
limits = record { per_session = 1; host = 2; ring_chars = 3 }

abbrev input : String → RegisterInput
input session = record {
  session_id = session;
  command = "npm run dev";
  cwd = "/work";
  turn_id = none;
  child = 7;
}

abbrev happenings : List Happening
happenings =
    registers "p1" 10 (input "a")
    ∷ registers "p2" 11 (input "a")
    ∷ registers "p3" 12 (input "b")
    ∷ kills "a" "p1"
    ∷ closes "p1" none 20
    ∷ registers "p4" 21 (input "a")
    ∷ []

history_caps_example :
    let g = history happenings (new_registry limits) in
    (running_count "a" g ≤ limits.per_session) × (running_total g ≤ limits.host)
history_caps_example = history_caps limits happenings "a"

abbrev dev : ProcessRecord
dev = new_record "p1" 10 (input "a")

abbrev registry : Registry
registry = record (new_registry limits) {
  by_id = ("p1", dev) ∷ ("p3", new_record "p3" 12 (input "b")) ∷ [];
  owners = ("p1", 7) ∷ ("p3", 8) ∷ [];
}

abbrev chunks : List (List ℕ)
chunks = (1 ∷ 2 ∷ []) ∷ (3 ∷ 4 ∷ []) ∷ []

cap_all_lem_example :
    ((cap_all (λ bytes. bytes) 3 chunks dev).output ≡ take 3 (flatten chunks))
    × ((cap_all (λ bytes. bytes) 3 chunks dev).output_truncated ≡ ltb 3 (length (flatten chunks)))
unfolding new_record
cap_all_lem_example = cap_all_lem (λ bytes. bytes) 3 chunks dev refl refl

kill-close_example :
    let g' = on_close "p1" none 20 (kill "a" "p1" registry).1 in
    let r' = record dev {
      status = killed;
      exit_code = none;
      ended_at = some 20;
      kill_requested = true;
    } in
    ((kill "a" "p1" registry).0 ≡ was_killed)
    × (Dict.get "p1" g'.by_id ≡ some r')
    × (Dict.get "p1" g'.owners ≡ none)
    × (g'.emitted ≡ (if dev.suppress_events then registry.emitted else ended r' ∷ registry.emitted))
unfolding new_record Dict.get
kill-close_example = kill-close "a" "p1" registry dev none 20 refl refl refl

error-close_twice_example :
    (on_close "p1" none 21 (on_error "p1" 20 registry)).emitted
    ≡ ended (record dev { status = exited; exit_code = none; ended_at = some 21 })
      ∷ ended (record dev { status = failed; exit_code = none; ended_at = some 20 })
      ∷ registry.emitted
unfolding new_record Dict.get
error-close_twice_example = error-close_twice "p1" registry dev none 20 21 refl refl refl
