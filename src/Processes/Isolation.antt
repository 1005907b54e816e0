-- ===== src/Processes/Isolation.antt =====
-- A session reaches its own processes only, and a disposed one is silent.
use mini_dsh.Common.{ℕ, String, ◌≡◌, ◌≢◌, false, none, some, arith, eq_iff, Option-cases, inl, inr}
use mini_dsh.Common.Dict
use mini_dsh.Common.Dict.{Dict, get-set}
use mini_dsh.Processes.{ProcessRecord, Registry, own, read, is_running, not_found, kill, detail}

-- A call for a process that the registry does not know, or that belongs to another session, answers
-- nothing and leaves the registry as it was.
foreign_call :
    (session id : String) (now : ℕ) (g : Registry)
    → ((r : ProcessRecord) → Dict.get id g.by_id ≡ some r → r.session_id ≢ session)
    → (read session id g ≡ none)
      × (is_running session id g ≡ false)
      × (detail session id now g ≡ none)
      × (kill session id g ≡ (not_found, g))
unfolding read is_running detail kill own
foreign_call session id now g foreign = elim (Option-cases (Dict.get id g.by_id)) [
  | inl e ↦ (ground (arith, e), ground (arith, e), ground (arith, e), ground (arith, e))
  | inr (r, e) ↦
      let ne = foreign r e in
      let test = eq_iff r.session_id session in
      (
        ground (arith, e, test),
        ground (arith, e, test),
        ground (arith, e, test),
        ground (arith, e, test),
      )
]

-- A kill that does not answer `not_found` is one of a process of the calling session.
kill_own :
    (session id : String) (g : Registry)
    → (kill session id g).0 ≢ not_found
    → (r : ProcessRecord) × (Dict.get id g.by_id ≡ some r) × (r.session_id ≡ session)
unfolding kill own
kill_own session id g h = elim (Option-cases (Dict.get id g.by_id)) [
  | inl e ↦ ground (arith, e)
  | inr (r, e) ↦ (r, e, ground (arith, e, eq_iff r.session_id session))
]
