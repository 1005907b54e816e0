-- ===== src/Session/Durability.antt =====
-- What a barrier that resolves has on disk, the numbers of the log, and forks.
use mini_dsh.Common.{
  ℕ, zero, suc, ◌≤◌, String, ◌≡◌, refl, sym, ap, ◌∙◌, true, Option, none, some, List, [], ◌∷◌, ◌++◌,
  arith, length, length-append, take, get_elem?, Option-cases, inl, inr,
}
use native.Mathlib.Numerals.{add-one}
use mini_dsh.Session.{SessionAppendedEvent, SessionEvent}
use mini_dsh.Session.Log.{
  Session, loaded, stamp, append, run_write, reached, broken, chain_end, settle_durable, dispose,
  close, poisoned,
}

pub data Happening : Type 0 where
  appends : ℕ → SessionAppendedEvent → Happening
  writes : Option String → Happening
  settles : ℕ → Option String → Happening
  disposes closes : Happening

unfoldable pub happen : Happening → Session → Session
unfolding append run_write settle_durable dispose close
happen (appends now body) s = (append now body s).1
happen (writes failure) s = run_write failure s
happen (settles n flush) s = (settle_durable n flush s).1
happen disposes s = dispose s
happen closes s = close s

unfoldable pub history : List Happening → Session → Session
history [] s = s
history (h ∷ hs) s = history hs (happen h s)

module _ {A : Type 0} where
  take_snoc : (n : ℕ) (xs : List A) (x : A) → n ≤ length xs → take n (xs ++ x ∷ []) ≡ take n xs
  take_snoc zero xs x h = refl
  take_snoc (suc n) [] x h = absurd (omega arith)
  take_snoc (suc n) (y ∷ xs) x h = ap (λ l. y ∷ l) (take_snoc n xs x (omega arith))

  take-suc :
      (n : ℕ) (xs : List A) (x : A)
      → get_elem? xs n ≡ some x
      → take (suc n) xs ≡ take n xs ++ x ∷ []
  take-suc n [] x h = ground (arith, h)
  take-suc zero (y ∷ xs) x h = ground (arith, h)
  take-suc (suc n) (y ∷ xs) x h = ap (λ l. y ∷ l) (take-suc n xs x h)

  take-take : (n m : ℕ) (xs : List A) → n ≤ m → take n (take m xs) ≡ take n xs
  take-take zero m xs h = refl
  take-take (suc n) zero xs h = absurd (omega arith)
  take-take (suc n) (suc m) [] h = refl
  take-take (suc n) (suc m) (x ∷ xs) h = ap (λ l. x ∷ l) (take-take n m xs (omega arith))

  pub take_all : (n : ℕ) (xs : List A) → length xs ≤ n → take n xs ≡ xs
  take_all zero [] h = refl
  take_all zero (x ∷ xs) h = absurd (omega arith)
  take_all (suc n) [] h = refl
  take_all (suc n) (x ∷ xs) h = ap (λ l. x ∷ l) (take_all n xs (omega arith))

-- How many events have reached the disk.
abbrev written : ℕ → Option (ℕ × String) → ℕ
written ran none = ran
written ran (some (k, message)) = k

record Mirrors (s : Session) : Type 0 where
  store : s.has_store ≡ true
  bound : s.ran ≤ length s.log
  early : written s.ran s.failed ≤ s.ran
  kept : s.disk ≡ take (written s.ran s.failed) s.log

append-Mirrors :
    (now : ℕ) (body : SessionAppendedEvent) (s : Session)
    → Mirrors s
    → Mirrors (append now body s).1
unfolding append
append-Mirrors now body s v =
    let e = stamp now body s in
    let same = take_snoc (written s.ran s.failed) s.log e (omega (arith, v.bound, v.early)) in
    ground (arith, v.store, v.bound, v.early, v.kept, same, length-append s.log (e ∷ []))

run_write-Mirrors :
    (failure : Option String) (s : Session) → Mirrors s → Mirrors (run_write failure s)
unfolding run_write
run_write-Mirrors failure s v = elim (Option-cases (get_elem? s.log s.ran)) [
  | inl h ↦ ground (arith, h, v.store, v.bound, v.early, v.kept)
  | inr (e, h) ↦
      let more = take-suc s.ran s.log e h in
      ground (arith, h, more, add-one s.ran, v.store, v.bound, v.early, v.kept)
]

settle_durable-Mirrors :
    (n : ℕ) (flush : Option String) (s : Session) → Mirrors s → Mirrors (settle_durable n flush s).1
unfolding settle_durable
settle_durable-Mirrors n flush s v = ground (arith, v.store, v.bound, v.early, v.kept)

happen-Mirrors : (h : Happening) (s : Session) → Mirrors s → Mirrors (happen h s)
unfolding happen dispose close
happen-Mirrors (appends now body) s v = append-Mirrors now body s v
happen-Mirrors (writes failure) s v = run_write-Mirrors failure s v
happen-Mirrors (settles n flush) s v = settle_durable-Mirrors n flush s v
happen-Mirrors disposes s v = record {
  store = v.store;
  bound = v.bound;
  early = v.early;
  kept = v.kept;
}
happen-Mirrors closes s v = record {
  store = v.store;
  bound = v.bound;
  early = v.early;
  kept = v.kept;
}

history-Mirrors : (hs : List Happening) (s : Session) → Mirrors s → Mirrors (history hs s)
unfolding history
history-Mirrors [] s v = v
history-Mirrors (h ∷ hs) s v = history-Mirrors hs (happen h s) (happen-Mirrors h s v)

loaded-Mirrors : (id : String) (events : List SessionEvent) → Mirrors (loaded id true events)
unfolding loaded
loaded-Mirrors id events = record {
  store = refl;
  bound = omega arith;
  early = omega arith;
  kept = sym (take_all (length events) events (omega arith));
}

reached_written :
    (n : ℕ) (flush : Option String) (s : Session)
    → Mirrors s
    → (settle_durable n flush s).0 ≡ reached
    → n ≤ written s.ran s.failed
unfolding settle_durable chain_end
reached_written n flush s v h = ground (arith, v.store, h)

-- After any appends, writes that succeed or fail, and barriers of a session with a store, a barrier
-- that was taken at `n` events and resolves has the first `n` events of the log on disk, in order.
pub durable_lem :
    (id : String) (events : List SessionEvent) (hs : List Happening) (n : ℕ) (flush : Option String)
    → (settle_durable n flush (history hs (loaded id true events))).0 ≡ reached
    → let s = history hs (loaded id true events) in take n s.disk ≡ take n s.log
durable_lem id events hs n flush h =
    let s = history hs (loaded id true events) in
    let v = history-Mirrors hs (loaded id true events) (loaded-Mirrors id events) in
    ap (take n) v.kept ∙ take-take n (written s.ran s.failed) s.log (reached_written n flush s v h)

happen_poisoned :
    (h : Happening) (s : Session)
    → poisoned s ≡ true
    → (poisoned (happen h s) ≡ true) × ((happen h s).log ≡ s.log)
unfolding happen poisoned append run_write settle_durable dispose close
happen_poisoned (appends now body) s p = ground (arith, p)
happen_poisoned (writes failure) s p = ground (arith, p)
happen_poisoned (settles n flush) s p = ground (arith, p)
happen_poisoned disposes s p = (p, refl)
happen_poisoned closes s p = (p, refl)

history_poisoned :
    (hs : List Happening) (s : Session) → poisoned s ≡ true → (history hs s).log ≡ s.log
unfolding history
history_poisoned [] s p = refl
history_poisoned (h ∷ hs) s p =
    let step = happen_poisoned h s p in history_poisoned hs (happen h s) step.0 ∙ step.1

pub settle_durable_log :
    (n : ℕ) (flush : Option String) (s : Session) → ((settle_durable n flush s).1).log ≡ s.log
unfolding settle_durable
settle_durable_log n flush s = ground arith

broken_poisons :
    (n : ℕ) (flush : Option String) (s : Session) (message : String)
    → (settle_durable n flush s).0 ≡ broken message
    → poisoned (settle_durable n flush s).1 ≡ true
unfolding settle_durable chain_end poisoned
broken_poisons n flush s message h = ground (arith, h)

-- Once a barrier has failed, whatever happens then, the log does not grow any more.
pub broken_stops :
    (n : ℕ) (flush : Option String) (s : Session) (message : String) (hs : List Happening)
    → (settle_durable n flush s).0 ≡ broken message
    → (history hs (settle_durable n flush s).1).log ≡ s.log
broken_stops n flush s message hs h =
    history_poisoned hs (settle_durable n flush s).1 (broken_poisons n flush s message h)
    ∙ settle_durable_log n flush s
