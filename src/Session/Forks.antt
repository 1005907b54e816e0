-- ===== src/Session/Forks.antt =====
-- The numbers of the log, and its forks.
use mini_dsh.Common.{
  ℕ, zero, suc, ◌+◌, ◌-◌, String, ◌≡◌, refl, sym, ap, ◌∙◌, Bool, Option, none, some, List, [], ◌∷◌,
  ◌++◌, arith, ltb, length, length-append, take, Bool-cases, inl, inr, ◌⊎◌,
}
use mathlib.Core.List.{append_assoc, append-nil}
use mini_dsh.Session.{SessionAppendedEvent, SessionEvent}
use mini_dsh.Session.Log.{
  Session, loaded, stamp, append, run_write, dispose, close, copy_events, last_seq, fork,
}
use mini_dsh.Session.Durability.{
  Happening, appends, writes, settles, disposes, closes, happen, history, settle_durable_log,
  take_all,
}

-- The events are numbered from `c + 1` on.
abbrev pub IsNumbered : ℕ → List SessionEvent → Type 0
IsNumbered c [] = Unit
IsNumbered c (e ∷ events) = (e.seq ≡ suc c) × IsNumbered (suc c) events

pub IsNumbered-snoc :
    (c : ℕ) (events : List SessionEvent) (e : SessionEvent)
    → IsNumbered c events
    → e.seq ≡ suc (c + length events)
    → IsNumbered c (events ++ e ∷ [])
IsNumbered-snoc c [] e v h = (omega (arith, h), tt)
IsNumbered-snoc c (x ∷ events) e v h =
    (v.0, IsNumbered-snoc (suc c) events e v.1 (omega (arith, h)))

append_log :
    (now : ℕ) (body : SessionAppendedEvent) (s : Session)
    → ((append now body s).1.log ≡ s.log)
      ⊎ ((append now body s).1.log ≡ s.log ++ stamp now body s ∷ [])
unfolding append
append_log now body s = ground arith

append-IsNumbered :
    (now : ℕ) (body : SessionAppendedEvent) (s : Session)
    → IsNumbered 0 s.log
    → IsNumbered 0 (append now body s).1.log
append-IsNumbered now body s v = elim (append_log now body s) [
  | inl e ↦ rw e v
  | inr e ↦ rw e (IsNumbered-snoc 0 s.log (stamp now body s) v (unfold stamp in omega arith))
]

run_write_log : (failure : Option String) (s : Session) → (run_write failure s).log ≡ s.log
unfolding run_write
run_write_log failure s = ground arith

happen-IsNumbered :
    (h : Happening) (s : Session) → IsNumbered 0 s.log → IsNumbered 0 (happen h s).log
unfolding happen dispose close
happen-IsNumbered (appends now body) s v = append-IsNumbered now body s v
happen-IsNumbered (writes failure) s v = rw (run_write_log failure s) v
happen-IsNumbered (settles n flush) s v = rw (settle_durable_log n flush s) v
happen-IsNumbered disposes s v = v
happen-IsNumbered closes s v = v

history-IsNumbered :
    (hs : List Happening) (s : Session) → IsNumbered 0 s.log → IsNumbered 0 (history hs s).log
unfolding history
history-IsNumbered [] s v = v
history-IsNumbered (h ∷ hs) s v = history-IsNumbered hs (happen h s) (happen-IsNumbered h s v)

take_nil : (n : ℕ) → take {A = SessionEvent} n [] ≡ []
take_nil zero = refl
take_nil (suc n) = refl

copy_events_lem :
    (limit c : ℕ) (events child : List SessionEvent)
    → IsNumbered c events
    → length child ≡ c
    → copy_events limit events child ≡ child ++ take (limit - c) events
unfolding copy_events
copy_events_lem limit c [] child v h = rw (take_nil (limit - c)) (sym (append-nil child))
copy_events_lem limit c (e ∷ events) child v h = elim (Bool-cases (ltb limit e.seq)) [
  | inl over ↦
      let none_left : limit - c ≡ 0 = ground (arith, over, v.0) in
      rw (over, none_left) (sym (append-nil child))
  | inr within ↦
      let one_more : limit - c ≡ suc (limit - suc c) = ground (arith, within, v.0) in
      let same : length child + 1 ≡ e.seq = omega (arith, h, v.0) in
      let rest =
        copy_events_lem limit (suc c) events (child ++ e ∷ []) v.1
          (length-append child (e ∷ []) ∙ omega (arith, h)) in
      rw (within, one_more, same) (rest ∙ append_assoc child (e ∷ []) (take (limit - suc c) events))
]

last_seq_lem :
    (c : ℕ) (e : SessionEvent) (events : List SessionEvent)
    → IsNumbered c (e ∷ events)
    → last_seq (e ∷ events) ≡ suc (c + length events)
unfolding last_seq
last_seq_lem c e [] v = omega (arith, v.0)
last_seq_lem c e (f ∷ events) v = last_seq_lem (suc c) f events v.1 ∙ omega arith

copy_first :
    (limit : ℕ) (log : List SessionEvent)
    → IsNumbered 0 log
    → copy_events limit log [] ≡ take limit log
copy_first limit log v =
    let same : limit - 0 ≡ limit = omega arith in
    copy_events_lem limit 0 log [] v refl ∙ ap (λ n. take n log) same

fork_whole : (log : List SessionEvent) → IsNumbered 0 log → copy_events (last_seq log) log [] ≡ log
fork_whole [] v = unfold copy_events in refl
fork_whole (e ∷ events) v =
    let all = last_seq_lem 0 e events v in
    copy_first (last_seq (e ∷ events)) (e ∷ events) v
    ∙ take_all (last_seq (e ∷ events)) (e ∷ events) (omega (arith, all))

-- A session that was loaded with a numbered history has, whatever happens to it, a numbered log; its
-- fork at a boundary is the log up to there, number by number, and its fork without one the whole log.
pub fork_lem :
    (id : String) (has_store : Bool) (events : List SessionEvent) (hs : List Happening)
    (boundary : ℕ)
    → IsNumbered 0 events
    → let s = history hs (loaded id has_store events) in
      IsNumbered 0 s.log × (fork (some boundary) s ≡ take boundary s.log) × (fork none s ≡ s.log)
unfolding fork
fork_lem id has_store events hs boundary v =
    let s = history hs (loaded id has_store events) in
    let w = history-IsNumbered hs (loaded id has_store events) (unfold loaded in v) in
    (w, copy_first boundary s.log w, fork_whole s.log w)
