-- ===== src/Session/Settings.antt =====
-- The settings of a session are those of its last event that tells them.
use mini_dsh.Common.{
  ℕ, zero, suc, ◌≤◌, ◌<◌, ◌≡◌, refl, ap, ◌∙◌, Bool, true, false, Option, none, some, List, [], ◌∷◌,
  ◌++◌, arith, length, length-append, get_elem?, or_else, Option-cases, inl, inr, first_some,
}
use native.Mathlib.Numerals.{add-one}
use mini_dsh.Session.{
  pick_at, session_model, Field, absent, SessionModel, assign_field, read_model, read_models,
  derive_session_model, SessionAppendedEvent, SessionEvent, last_from, last_of, title_in,
  custom_title, pinned_in, pinned, mode_in, session_mode_of, grants_in, session_grants_of,
}

get-before :
    {A : Type 0}
    → (xs : List A) (x : A) (i : ℕ) → i < length xs
    → get_elem? (xs ++ x ∷ []) i ≡ get_elem? xs i
get-before [] x i h = absurd (omega arith)
get-before (y ∷ xs) x zero h = refl
get-before (y ∷ xs) x (suc i) h = get-before xs x i (omega arith)

get_last : {A : Type 0} → (xs : List A) (x : A) → get_elem? (xs ++ x ∷ []) (length xs) ≡ some x
get_last [] x = refl
get_last (y ∷ xs) x = get_last xs x

module _ {A : Type 0} (pick : SessionAppendedEvent → Option A) where
  last_from_before :
      (events : List SessionEvent) (e : SessionEvent) (n : ℕ)
      → n ≤ length events
      → last_from pick (events ++ e ∷ []) n ≡ last_from pick events n
  unfolding last_from
  last_from_before events e zero h = refl
  last_from_before events e (suc i) h =
      rw (get-before events e i (omega arith), last_from_before events e i (omega arith), last_from)
        refl

  -- The search from the end sees a new event first.
  last_of_snoc :
      (events : List SessionEvent) (e : SessionEvent)
      → last_of pick (events ++ e ∷ []) ≡ first_some (pick e.body) (last_of pick events)
  unfolding last_of last_from
  last_of_snoc events e =
      let here = get_last events e in
      let before = last_from_before events e (length events) (omega arith) in
      rw (length-append events (e ∷ []), add-one)
        (elim (Option-cases (pick e.body)) [
          | inl h ↦ rw (here, before, h, last_from) refl
          | inr (a, h) ↦ rw (here, before, h, last_from) refl
        ])

-- What an event says of the title, of the pin, of the mode and of the grants holds once it is
-- appended; where it says nothing, what held before still does.
pub settings_snoc :
    (events : List SessionEvent) (e : SessionEvent)
    → (custom_title (events ++ e ∷ []) ≡ or_else (title_in e.body) (custom_title events))
      × (pinned (events ++ e ∷ []) ≡ or_else (pinned_in e.body) (pinned events))
      × (session_mode_of (events ++ e ∷ []) ≡ first_some (mode_in e.body) (session_mode_of events))
      × (session_grants_of (events ++ e ∷ [])
          ≡ or_else (grants_in e.body) (session_grants_of events))
unfolding custom_title pinned session_mode_of session_grants_of
settings_snoc events e =
    let t = last_of_snoc title_in events e in
    let p = last_of_snoc pinned_in events e in
    let m = last_of_snoc mode_in events e in
    let g = last_of_snoc grants_in events e in
    (ground (arith, t), ground (arith, p), m, ground (arith, g))

-- A given or cleared field of the last `session/model` event that has one.
unfoldable pub present : Field → Option Field
present absent = none
present f = some f

unfoldable pub provider_in : SessionAppendedEvent → Option Field
provider_in (session_model provider model thinking_level) = present provider
provider_in _ = none

unfoldable pub model_in : SessionAppendedEvent → Option Field
model_in (session_model provider model thinking_level) = present model
model_in _ = none

unfoldable pub thinking_in : SessionAppendedEvent → Option Field
thinking_in (session_model provider model thinking_level) = present thinking_level
thinking_in _ = none

unfoldable pub names_model : SessionAppendedEvent → Option Bool
names_model (session_model provider model thinking_level) = some true
names_model _ = none

-- The record that the projection should give.
abbrev found : Bool → Field → Field → Field → SessionModel
found h p m t = record { has_event = h; provider = p; model = m; thinking_level = t }

read_model_lem :
    (h : Bool) (p m t : Field) (b : SessionAppendedEvent)
    → read_model (found h p m t) b
      ≡ found
          (or_else (names_model b) h)
          (or_else (provider_in b) p)
          (or_else (model_in b) m)
          (or_else (thinking_in b) t)
unfolding read_model assign_field names_model provider_in model_in thinking_in present
read_model_lem h p m t (session_model provider model thinking_level) = ground arith
read_model_lem h p m t _ = refl

first_some_assoc :
    {A : Type 0}
    → (a b c : Option A) → first_some a (first_some b c) ≡ first_some (first_some a b) c
first_some_assoc none b c = refl
first_some_assoc (some a) b c = refl

first_some-none : {A : Type 0} → (a : Option A) → first_some a none ≡ a
first_some-none none = refl
first_some-none (some a) = refl

last_from_cons :
    {A : Type 0}
    → (pick : SessionAppendedEvent → Option A) (e : SessionEvent) (events : List SessionEvent)
      (n : ℕ)
    → last_from pick (e ∷ events) (suc n) ≡ first_some (last_from pick events n) (pick e.body)
unfolding last_from pick_at
last_from_cons pick e events zero = first_some-none (pick e.body)
last_from_cons pick e events (suc n) =
    ap (first_some (pick_at pick (get_elem? events n))) (last_from_cons pick e events n)
    ∙ first_some_assoc (pick_at pick (get_elem? events n)) (last_from pick events n) (pick e.body)

or_else-first_some :
    {A : Type 0} → (a b : Option A) (d : A) → or_else (first_some a b) d ≡ or_else a (or_else b d)
or_else-first_some none b d = refl
or_else-first_some (some a) b d = refl

-- The last value that events give, in place of an initial one.
abbrev last_or : {A : Type 0} → (SessionAppendedEvent → Option A) → List SessionEvent → A → A
last_or pick events d = or_else (last_of pick events) d

last_or_cons :
    {A : Type 0}
    → (pick : SessionAppendedEvent → Option A) (e : SessionEvent) (events : List SessionEvent)
      (d : A)
    → last_or pick (e ∷ events) d ≡ last_or pick events (or_else (pick e.body) d)
unfolding last_of
last_or_cons pick e events d =
    ap (λ o. or_else o d) (last_from_cons pick e events (length events))
    ∙ or_else-first_some (last_from pick events (length events)) (pick e.body) d

read_models_lem :
    (h : Bool) (p m t : Field) (events : List SessionEvent)
    → read_models (found h p m t) events
      ≡ found
          (last_or names_model events h)
          (last_or provider_in events p)
          (last_or model_in events m)
          (last_or thinking_in events t)
unfolding read_models
read_models_lem h p m t [] = unfold last_of last_from in refl
read_models_lem h p m t (e ∷ events) =
    let one = read_model_lem h p m t e.body in
    let rest =
      read_models_lem (or_else (names_model e.body) h) (or_else (provider_in e.body) p)
        (or_else (model_in e.body) m) (or_else (thinking_in e.body) t) events in
    let a = last_or_cons names_model e events h in
    let b = last_or_cons provider_in e events p in
    let c = last_or_cons model_in e events m in
    let d = last_or_cons thinking_in e events t in rw (a, b, c, d, one) rest

-- The projection by one pass over the log, field by field, gives for each field the value that the
-- last `session/model` event with that field gave or cleared, found from the end of the log.
pub derive_session_model_lem :
    (events : List SessionEvent)
    → let model = derive_session_model events in
      (model.has_event ≡ or_else (last_of names_model events) false)
      × (model.provider ≡ or_else (last_of provider_in events) absent)
      × (model.model ≡ or_else (last_of model_in events) absent)
      × (model.thinking_level ≡ or_else (last_of thinking_in events) absent)
unfolding derive_session_model
derive_session_model_lem events =
    let e = read_models_lem false absent absent absent events in
    (
      ap (λ (m : SessionModel). m.has_event) e,
      ap (λ (m : SessionModel). m.provider) e,
      ap (λ (m : SessionModel). m.model) e,
      ap (λ (m : SessionModel). m.thinking_level) e,
    )
