-- ===== src/Processes/Caps.antt =====
-- The caps on running processes hold in every history.
use mini_dsh.Common.{
  ℕ, ◌≤◌, String, ◌≡◌, refl, Bool, true, false, Option, none, some, List, [], ◌∷◌, arith, eq_iff,
  Option-cases, inl, inr, ◌∙◌, ap,
}
use mini_dsh.Common.Dict
use mini_dsh.Common.Dict.{Dict}
use mini_dsh.Processes.{
  ExitCode, ProcessRecord, ProcessStatus, failed, RegisterInput, Registry, RegistryLimits,
  new_registry, runs_in, is_running_status, count_records, running_count, running_total, new_record,
  try_register, cap_at, on_data, settled, settle, on_error, close_status, on_close, request_kill,
  kill, dispose_record, dispose, dispose_each, sessions_of, dispose_all,
}
use mini_dsh.Processes.Counting.{
  happen, history, hit, count_records-set, count_records-dispose, Happening, registers, prints,
  fails, closes, kills, disposes, disposes_all,
}

-- How many records of a registry pass a test, for the two tests that the caps count.
abbrev total : ProcessRecord → Bool
total r = is_running_status r.status

pub record WithinCaps (session : String) (g : Registry) : Type 0 where
  pub in_session : running_count session g ≤ g.limits.per_session
  pub on_host : running_total g ≤ g.limits.host

try_register-WithinCaps :
    (s id : String) (now : ℕ) (input : RegisterInput) (g : Registry)
    → WithinCaps s g
    → WithinCaps s (try_register id now input g).1
unfolding try_register running_count running_total runs_in hit
try_register-WithinCaps s id now input g v =
    let r = new_record id now input in
    ground (
      arith,
      eq_iff input.session_id s,
      count_records-set (runs_in s) id r g.by_id,
      count_records-set total id r g.by_id,
    )

count_records-set_le :
    (p : ProcessRecord → Bool) (k : String) (r r' : ProcessRecord) (m : Dict ProcessRecord)
    → Dict.get k m ≡ some r
    → (p r' ≡ true → p r ≡ true)
    → count_records p (Dict.set k r' m) ≤ count_records p m
unfolding hit
count_records-set_le p k r r' m e h = ground (arith, e, count_records-set p k r' m)

-- Replacing a record by one that runs in no more places keeps the caps.
set-WithinCaps :
    (s k : String) (r r' : ProcessRecord) (g : Registry)
    → Dict.get k g.by_id ≡ some r
    → (runs_in s r' ≡ true → runs_in s r ≡ true)
    → (total r' ≡ true → total r ≡ true)
    → WithinCaps s g
    → (count_records (runs_in s) (Dict.set k r' g.by_id) ≤ g.limits.per_session)
      × (count_records total (Dict.set k r' g.by_id) ≤ g.limits.host)
unfolding running_count running_total
set-WithinCaps s k r r' g e a b v = (
  omega (arith, count_records-set_le (runs_in s) k r r' g.by_id e a, v.in_session),
  omega (arith, count_records-set_le total k r r' g.by_id e b, v.on_host),
)

on_data-WithinCaps :
    (decode : List ℕ → List ℕ) (s id : String) (chunk : List ℕ) (g : Registry)
    → WithinCaps s g
    → WithinCaps s (on_data decode id chunk g)
unfolding on_data running_count running_total
on_data-WithinCaps decode s id chunk g v = elim (Option-cases (Dict.get id g.by_id)) [
  | inl e ↦ rw (e, on_data) v
  | inr (r, e) ↦
      let kept =
        set-WithinCaps s id r (cap_at decode g.limits.ring_chars chunk r) g e
          (unfold cap_at runs_in in λ h. ground arith) (unfold cap_at in λ h. ground arith) v in
      rw (e, on_data) (record { in_session = kept.0; on_host = kept.1 })
]

settle-WithinCaps :
    (s id : String) (o : Option ProcessRecord) (status : ProcessStatus) (code : Option ExitCode)
    (now : ℕ) (g : Registry)
    → Dict.get id g.by_id ≡ o
    → is_running_status status ≡ false
    → WithinCaps s g
    → WithinCaps s (settle o id status code now g)
unfolding settle running_count running_total
settle-WithinCaps s id none status code now g e h v = v
settle-WithinCaps s id (some r) status code now g e h v =
    let kept =
      set-WithinCaps s id r (settled status code now r) g e
        (unfold settled runs_in in λ t. ground arith) (unfold settled in λ t. ground arith) v in
    record { in_session = kept.0; on_host = kept.1 }

close_status_ended : (o : Option ProcessRecord) → is_running_status (close_status o) ≡ false
unfolding close_status
close_status_ended none = refl
close_status_ended (some r) = ground arith

kill-WithinCaps :
    (s session id : String) (g : Registry) → WithinCaps s g → WithinCaps s (kill session id g).1
unfolding kill running_count running_total request_kill
kill-WithinCaps s session id g v = elim (Option-cases (Dict.get id g.by_id)) [
  | inl e ↦ rw (e, kill) v
  | inr (r, e) ↦
      let kept =
        set-WithinCaps s id r (record r { kill_requested = true }) g e
          (unfold runs_in in λ t. ground arith) (λ t. ground arith) v in
      ground (arith, e, kept)
]

dispose-WithinCaps :
    (s session : String) (g : Registry) → WithinCaps s g → WithinCaps s (dispose session g)
unfolding dispose running_count running_total
dispose-WithinCaps s session g v = record {
  in_session = omega (
    arith,
    count_records-dispose (runs_in s) session g.by_id
        (unfold dispose_record runs_in in λ r. ground arith),
    v.in_session,
  );
  on_host = omega (
    arith,
    count_records-dispose total session g.by_id
        (unfold dispose_record runs_in in λ r. ground arith),
    v.on_host,
  );
}

dispose_each-WithinCaps :
    (s : String) (sessions : List String) (g : Registry)
    → WithinCaps s g
    → WithinCaps s (dispose_each sessions g)
unfolding dispose_each
dispose_each-WithinCaps s [] g v = v
dispose_each-WithinCaps s (x ∷ xs) g v =
    dispose_each-WithinCaps s xs (dispose x g) (dispose-WithinCaps s x g v)

happen-WithinCaps :
    (s : String) (h : Happening) (g : Registry) → WithinCaps s g → WithinCaps s (happen h g)
unfolding happen on_error on_close dispose_all
happen-WithinCaps s (registers id now input) g v = try_register-WithinCaps s id now input g v
happen-WithinCaps s (prints decode id chunk) g v = on_data-WithinCaps decode s id chunk g v
happen-WithinCaps s (fails id now) g v = settle-WithinCaps s id _ failed none now g refl refl v
happen-WithinCaps s (closes id code now) g v =
    settle-WithinCaps s id _ _ code now g refl (close_status_ended _) v
happen-WithinCaps s (kills session id) g v = kill-WithinCaps s session id g v
happen-WithinCaps s (disposes session) g v = dispose-WithinCaps s session g v
happen-WithinCaps s disposes_all g v = dispose_each-WithinCaps s (sessions_of g.by_id []) g v

history-WithinCaps :
    (s : String) (hs : List Happening) (g : Registry) → WithinCaps s g → WithinCaps s (history hs g)
unfolding history
history-WithinCaps s [] g v = v
history-WithinCaps s (h ∷ hs) g v = history-WithinCaps s hs (happen h g) (happen-WithinCaps s h g v)

dispose_each_limits :
    (sessions : List String) (g : Registry) → (dispose_each sessions g).limits ≡ g.limits
unfolding dispose_each dispose
dispose_each_limits [] g = refl
dispose_each_limits (x ∷ xs) g = dispose_each_limits xs (dispose x g)

settle_limits :
    (o : Option ProcessRecord) (id : String) (status : ProcessStatus) (code : Option ExitCode)
    (now : ℕ) (g : Registry)
    → (settle o id status code now g).limits ≡ g.limits
unfolding settle
settle_limits none id status code now g = refl
settle_limits (some r) id status code now g = refl

happen_limits : (h : Happening) (g : Registry) → (happen h g).limits ≡ g.limits
unfolding happen on_error on_close dispose_all try_register on_data kill dispose
happen_limits (registers id now input) g = ground arith
happen_limits (prints decode id chunk) g = ground arith
happen_limits (fails id now) g = settle_limits _ id failed none now g
happen_limits (closes id code now) g = settle_limits _ id _ code now g
happen_limits (kills session id) g = ground arith
happen_limits (disposes session) g = refl
happen_limits disposes_all g = dispose_each_limits (sessions_of g.by_id []) g

history_limits : (hs : List Happening) (g : Registry) → (history hs g).limits ≡ g.limits
unfolding history
history_limits [] g = refl
history_limits (h ∷ hs) g = history_limits hs (happen h g) ∙ happen_limits h g

-- From an empty registry, after any calls of its clients and any events of its children, also when an
-- id is used twice, each session runs at most its cap of processes, and the host at most its own.
pub history_caps :
    (limits : RegistryLimits) (hs : List Happening) (session : String)
    → let g = history hs (new_registry limits) in
      (running_count session g ≤ limits.per_session) × (running_total g ≤ limits.host)
unfolding new_registry
history_caps limits hs session =
    let v = history-WithinCaps session hs (new_registry limits) (
      unfold running_count running_total count_records in
      record { in_session = omega arith; on_host = omega arith }) in
    let e = history_limits hs (new_registry limits) in
    (
      omega (arith, v.in_session, ap (λ (l : RegistryLimits). l.per_session) e),
      omega (arith, v.on_host, ap (λ (l : RegistryLimits). l.host) e),
    )
