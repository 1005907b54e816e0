-- ===== src/Processes/Running.antt =====
-- harness/processes/registry.ts: the registration of processes, and the events of their children.
use mini_dsh.Common.{
  ℕ, ◌+◌, ◌-◌, String, Bool, true, false, ◌&&◌, Option, none, some, List, [], ◌∷◌, ◌++◌, ◌==◌, ltb,
  leb, if◌then◌else◌, length, take,
}
use mini_dsh.Common.Dict
use mini_dsh.Common.Dict.{Dict}

pub data ProcessStatus : Type 0 where
  running exited killed failed interrupted : ProcessStatus

-- The code of a process, and the negative one with which Node closes a child that did not start.
pub data ExitCode : Type 0 where
  plus minus : ℕ → ExitCode

pub record ProcessRecord : Type 0 where
  pub id : String
  pub session_id : String
  pub command : String
  pub cwd : String
  pub turn_id : Option String
  pub started_at : ℕ
  pub status : ProcessStatus
  pub exit_code : Option ExitCode
  pub ended_at : Option ℕ
  pub output : List ℕ
  pub output_truncated : Bool
  pub suppress_events : Bool
  pub kill_requested : Bool

-- A difference of two clock readings: the clock may have been set back.
pub data Duration : Type 0 where
  forward backward : ℕ → Duration

unfoldable pub duration_from : ℕ → ℕ → Duration
duration_from start now = if leb start now then forward (now - start) else backward (start - now)

pub record ProcessSnapshot : Type 0 where
  pub id : String
  pub command : String
  pub cwd : String
  pub status : ProcessStatus
  pub started_at : ℕ
  pub exit_code : Option ExitCode
  pub duration_ms : Duration
  pub truncated : Bool

-- `child` stands for the child's handle with its executable and tree tag.
pub record RegisterInput : Type 0 where
  pub session_id : String
  pub command : String
  pub cwd : String
  pub turn_id : Option String
  pub child : ℕ

pub record RegistryLimits : Type 0 where
  pub per_session : ℕ
  pub host : ℕ
  pub ring_chars : ℕ

abbrev pub default_limits : RegistryLimits
default_limits = record { per_session = 8; host = 24; ring_chars = 64_000 }

pub data Callback : Type 0 where
  started : ProcessRecord → Callback
  ended : ProcessRecord → Callback

pub record Registry : Type 0 where
  pub by_id : Dict ProcessRecord
  pub owners : Dict ℕ
  pub limits : RegistryLimits
  pub emitted : List Callback
  pub kills_sent : List ℕ

unfoldable pub new_registry : RegistryLimits → Registry
new_registry limits = record {
  by_id = [];
  owners = [];
  limits = limits;
  emitted = [];
  kills_sent = [];
}

abbrev pub is_running_status : ProcessStatus → Bool
is_running_status running = true
is_running_status _ = false

unfoldable pub runs_in : String → ProcessRecord → Bool
runs_in session r = r.session_id == session && is_running_status r.status

-- The loops of `runningCount` and `runningTotal`.
unfoldable pub count_records : (ProcessRecord → Bool) → Dict ProcessRecord → ℕ
count_records p [] = 0
count_records p ((id, r) ∷ m) = (if p r then 1 else 0) + count_records p m

unfoldable pub running_count : String → Registry → ℕ
running_count session g = count_records (runs_in session) g.by_id

unfoldable pub running_total : Registry → ℕ
running_total g = count_records (λ r. is_running_status r.status) g.by_id

pub data Registration : Type 0 where
  registered : ProcessRecord → Registration
  session_full host_full : Registration

unfoldable pub new_record : String → ℕ → RegisterInput → ProcessRecord
new_record id now input = record {
  id = id;
  session_id = input.session_id;
  command = input.command;
  cwd = input.cwd;
  turn_id = input.turn_id;
  started_at = now;
  status = running;
  exit_code = none;
  ended_at = none;
  output = [];
  output_truncated = false;
  suppress_events = false;
  kill_requested = false;
}

unfoldable pub try_register : String → ℕ → RegisterInput → Registry → Registration × Registry
unfolding new_record
try_register id now input g =
    if leb g.limits.per_session (running_count input.session_id g)
    then (session_full, g)
    else if leb g.limits.host (running_total g)
    then (host_full, g)
    else let r = new_record id now input in
      (
        registered r,
        record g {
          by_id = Dict.set id r g.by_id;
          owners = Dict.set id input.child g.owners;
          emitted = started r ∷ g.emitted;
        },
      )

-- `capAt`: a chunk of output arrives. `decode` is `toString('utf8')`, which takes each chunk by itself
-- and replaces a part of a character.
unfoldable pub cap_at : (decode : List ℕ → List ℕ) → ℕ → List ℕ → ProcessRecord → ProcessRecord
cap_at decode ring chunk r =
    if r.output_truncated
    then r
    else let output = r.output ++ decode chunk in
      if ltb ring (length output)
      then record r { output = take ring output; output_truncated = true }
      else record r { output = output }

unfoldable pub replace :
    String → Option ProcessRecord → (ProcessRecord → ProcessRecord) → Registry → Registry
replace id none f g = g
replace id (some r) f g = record g { by_id = Dict.set id (f r) g.by_id }

unfoldable pub on_data : (decode : List ℕ → List ℕ) → String → List ℕ → Registry → Registry
unfolding replace
on_data decode id chunk g =
    replace id (Dict.get id g.by_id) (cap_at decode g.limits.ring_chars chunk) g

unfoldable pub settled : ProcessStatus → Option ExitCode → ℕ → ProcessRecord → ProcessRecord
settled status code now r = record r { status = status; exit_code = code; ended_at = some now }

unfoldable pub settle :
    Option ProcessRecord → String → ProcessStatus → Option ExitCode → ℕ → Registry → Registry
unfolding settled
settle none id status code now g = g
settle (some r) id status code now g =
    let r' = settled status code now r in
    record g {
      by_id = Dict.set id r' g.by_id;
      owners = Dict.delete id g.owners;
      emitted = if r.suppress_events then g.emitted else ended r' ∷ g.emitted;
    }

-- The child's `error` event.
unfoldable pub on_error : String → ℕ → Registry → Registry
unfolding settle
on_error id now g = settle (Dict.get id g.by_id) id failed none now g

unfoldable pub close_status : Option ProcessRecord → ProcessStatus
close_status none = exited
close_status (some r) = if r.kill_requested then ProcessStatus.killed else exited

-- The child's `close` event.
unfoldable pub on_close : String → Option ExitCode → ℕ → Registry → Registry
unfolding settle close_status
on_close id code now g = let r = Dict.get id g.by_id in settle r id (close_status r) code now g
