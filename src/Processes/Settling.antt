-- ===== src/Processes/Settling.antt =====
-- How a process ends.
use mini_dsh.Common.{
  ℕ, String, ◌≡◌, true, false, Option, none, some, ◌∷◌, if◌then◌else◌, arith, eq_iff, eq_refl,
}
use mini_dsh.Common.Dict
use mini_dsh.Common.Dict.{Dict, get-set, get-delete}
use mini_dsh.Processes.{
  ExitCode, ProcessRecord, ProcessStatus, running, exited, killed, failed, Registry, ended, own,
  kill, kill_tree, request_kill, was_killed, settle, settled, on_error, on_close, close_status,
}

-- A record of a process that has ended.
abbrev pub closed_as : ProcessStatus → Option ExitCode → ℕ → ProcessRecord → ProcessRecord
closed_as status code now r = record r { status = status; exit_code = code; ended_at = some now }

-- A process that its session kills while it runs, and that then closes, ends as killed with the
-- code it closed with; its handle is forgotten, and the callback gets this record, if the session was
-- not disposed of.
pub kill-close :
    (session id : String) (g : Registry) (r : ProcessRecord) (code : Option ExitCode) (now : ℕ)
    → Dict.get id g.by_id ≡ some r
    → r.session_id ≡ session
    → r.status ≡ running
    → let g' = on_close id code now (kill session id g).1 in
      let r' = record r {
        status = killed;
        exit_code = code;
        ended_at = some now;
        kill_requested = true;
      } in
      ((kill session id g).0 ≡ was_killed)
      × (Dict.get id g'.by_id ≡ some r')
      × (Dict.get id g'.owners ≡ none)
      × (g'.emitted ≡ (if r.suppress_events then g.emitted else ended r' ∷ g.emitted))
unfolding kill own kill_tree request_kill on_close settle settled close_status
kill-close session id g r code now e s up =
    let asked = get-set id id (record r { kill_requested = true }) g.by_id in
    let closed =
      get-set id id
        (record r { status = killed; exit_code = code; ended_at = some now; kill_requested = true })
        (Dict.set id (record r { kill_requested = true }) g.by_id) in
    (
      ground (arith, e, eq_iff r.session_id session),
      ground (arith, e, eq_iff r.session_id session, eq_refl id, asked, closed),
      ground (arith, e, eq_iff r.session_id session, eq_refl id, asked, get-delete id id g.owners),
      ground (arith, e, eq_iff r.session_id session, eq_refl id, asked),
    )

-- `settle` has no guard: a child that reports an error and then closes, with no kill requested and its
-- session not disposed of, calls `onExit` twice, first as failed and then as exited.
pub error-close_twice :
    (id : String) (g : Registry) (r : ProcessRecord) (code : Option ExitCode) (t u : ℕ)
    → Dict.get id g.by_id ≡ some r
    → r.suppress_events ≡ false
    → r.kill_requested ≡ false
    → let g' = on_close id code u (on_error id t g) in
      g'.emitted
      ≡ ended (record r { status = exited; exit_code = code; ended_at = some u })
        ∷ ended (record r { status = failed; exit_code = none; ended_at = some t })
        ∷ g.emitted
unfolding on_error on_close settle settled close_status
error-close_twice id g r code t u e loud free = ground (
  arith,
  e,
  eq_refl id,
  get-set id id (record r { status = failed; exit_code = none; ended_at = some t }) g.by_id,
)
