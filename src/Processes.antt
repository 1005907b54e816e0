-- ===== src/Processes.antt =====
-- harness/processes/registry.ts: the registry of background processes. Ids, times, child handles and
-- what the processes print are arguments. Output is a list of code units. The callbacks and the tree
-- kills are logs of the registry: `emitted` and `kills_sent`, newest first.
mod Running
pub mod Counting
pub mod Caps
pub mod Output
pub mod Isolation
pub mod Settling
pub mod Tests
unfoldable pub use Running.*
use mini_dsh.Common.{
  ℕ, zero, suc, ◌+◌, ◌-◌, String, Bool, true, false, not, ◌&&◌, ◌||◌, Option, none, some, List, [],
  ◌∷◌, ◌++◌, ◌==◌, ltb, leb, if◌then◌else◌, length, take, or_else, is_some,
}
use mini_dsh.Common.Dict
use mini_dsh.Common.Dict.{Dict}
use mini_dsh.Common.Keys

-- `this.byId.get(id)`, if the record is the session's.
unfoldable pub own : String → Option ProcessRecord → Option ProcessRecord
own session none = none
own session (some r) = if r.session_id == session then some r else none

pub record Reading : Type 0 where
  pub output : List ℕ
  pub output_truncated : Bool
  pub status : ProcessStatus
  pub exit_code : Option ExitCode

unfoldable pub read : String → String → Registry → Option Reading
unfolding own
read session id g = elim (own session (Dict.get id g.by_id)) [
  | none ↦ none
  | some r ↦ some (record {
    output = r.output;
    output_truncated = r.output_truncated;
    status = r.status;
    exit_code = r.exit_code;
  })
]

unfoldable pub is_running : String → String → Registry → Bool
unfolding own
is_running session id g = elim (own session (Dict.get id g.by_id)) [
  | none ↦ false
  | some r ↦ is_running_status r.status
]

pub data KillOutcome : Type 0 where
  was_killed not_found : KillOutcome
  already_ended : ProcessStatus → KillOutcome

-- `killTree` on the child that the id owns, if it still does.
unfoldable pub kill_tree : Option ℕ → Registry → Registry
kill_tree none g = g
kill_tree (some child) g = record g { kills_sent = child ∷ g.kills_sent }

unfoldable pub request_kill : String → ProcessRecord → Registry → Registry
request_kill id r g = record g { by_id = Dict.set id (record r { kill_requested = true }) g.by_id }

-- `kill`, up to the wait for the child to settle, with the outcome that the call will report.
unfoldable pub kill : String → String → Registry → KillOutcome × Registry
unfolding own kill_tree request_kill
kill session id g = elim (own session (Dict.get id g.by_id)) [
  | none ↦ (not_found, g)
  | some r ↦
      if is_running_status r.status
      then (was_killed, kill_tree (Dict.get id g.owners) (request_kill id r g))
      else (already_ended r.status, g)
]

unfoldable pub snapshot_of : ℕ → ProcessRecord → ProcessSnapshot
snapshot_of now r = record {
  id = r.id;
  command = r.command;
  cwd = r.cwd;
  status = r.status;
  started_at = r.started_at;
  exit_code = r.exit_code;
  duration_ms = duration_from r.started_at (or_else r.ended_at now);
  truncated = r.output_truncated;
}

unfoldable pub snapshots : String → ℕ → Dict ProcessRecord → List ProcessSnapshot
snapshots session now [] = []
snapshots session now ((id, r) ∷ m) =
    let rest = snapshots session now m in
    if r.session_id == session then snapshot_of now r ∷ rest else rest

unfoldable pub snapshot : String → ℕ → Registry → List ProcessSnapshot
snapshot session now g = snapshots session now g.by_id

unfoldable pub detail : String → String → ℕ → Registry → Option (ProcessSnapshot × List ℕ × Bool)
unfolding own
detail session id now g = elim (own session (Dict.get id g.by_id)) [
  | none ↦ none
  | some r ↦ some (snapshot_of now r, r.output, r.output_truncated)
]

-- The flags that `dispose` sets on one record of the loop, and the kills that it makes.
unfoldable pub dispose_record : String → ProcessRecord → ProcessRecord
dispose_record session r =
    if runs_in session r then record r { kill_requested = true; suppress_events = true } else r

unfoldable pub dispose_records : String → Dict ProcessRecord → Dict ProcessRecord
dispose_records session [] = []
dispose_records session ((id, r) ∷ m) = (id, dispose_record session r) ∷ dispose_records session m

unfoldable pub dispose_kill : Option ℕ → List ℕ → List ℕ
dispose_kill none sent = sent
dispose_kill (some child) sent = child ∷ sent

unfoldable pub dispose_kills : String → Dict ProcessRecord → Dict ℕ → List ℕ → List ℕ
unfolding dispose_kill
dispose_kills session [] owners sent = sent
dispose_kills session ((id, r) ∷ m) owners sent =
    dispose_kills session m owners
      (if runs_in session r then dispose_kill (Dict.get id owners) sent else sent)

unfoldable pub dispose : String → Registry → Registry
dispose session g = record g {
  by_id = dispose_records session g.by_id;
  kills_sent = dispose_kills session g.by_id g.owners g.kills_sent;
}

unfoldable pub sessions_of : Dict ProcessRecord → List String → List String
sessions_of [] sessions = sessions
sessions_of ((id, r) ∷ m) sessions = sessions_of m (Keys.add r.session_id sessions)

unfoldable pub dispose_each : List String → Registry → Registry
dispose_each [] g = g
dispose_each (session ∷ sessions) g = dispose_each sessions (dispose session g)

unfoldable pub dispose_all : Registry → Registry
unfolding dispose_each sessions_of
dispose_all g = dispose_each (sessions_of g.by_id []) g
