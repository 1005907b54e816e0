-- ===== src/Session/Log.antt =====
-- harness/session/session.ts: one session, its queued writes and its durability barriers. Times, what
-- a write or a flush of the store ends with, and the order in which they end come from outside.
use mini_dsh.Common.{
  ℕ, ◌+◌, String, Bool, true, false, ◌&&◌, Option, none, some, List, [], ◌∷◌, ◌++◌, not, ltb,
  if◌then◌else◌, length, get_elem?, is_some, or_else, template,
}
use mini_dsh.Session.{SessionAppendedEvent, SessionEvent}

-- `ran` writes of the chain have run, in the order of the log; the chain is broken from the first one
-- that failed, `failed`, on. `disk` is what the store has of the session.
pub record Session : Type 0 where
  pub id : String
  pub has_store : Bool
  pub log : List SessionEvent
  pub ran : ℕ
  pub failed : Option (ℕ × String)
  pub disk : List SessionEvent
  pub poisoned_error : Option String
  pub disposed : Bool
  pub closed : Bool

-- A new session, and one with the history that was read from its store (`adoptHistory`).
unfoldable pub loaded : String → Bool → List SessionEvent → Session
loaded id has_store history = record {
  id = id;
  has_store = has_store;
  log = history;
  ran = length history;
  failed = none;
  disk = history;
  poisoned_error = none;
  disposed = false;
  closed = false;
}

pub data Appended : Type 0 where
  stamped : SessionEvent → Appended
  threw : String → Appended

unfoldable pub stamp : ℕ → SessionAppendedEvent → Session → SessionEvent
stamp now body s = record { seq = length s.log + 1; timestamp = now; body = body }

unfoldable pub append : ℕ → SessionAppendedEvent → Session → Appended × Session
unfolding stamp
append now body s =
    if s.disposed
    then (threw (template ("session '" ∷ s.id ∷ "' has been deleted" ∷ [])), s)
    else if s.closed
    then (threw (template ("session '" ∷ s.id ∷ "' is closing" ∷ [])), s)
    else elim s.poisoned_error [
      | some message ↦ (threw message, s)
      | none ↦ let e = stamp now body s in (stamped e, record s { log = s.log ++ e ∷ [] })
    ]

-- The next write of the chain runs: `this.writeTail.then(() => store.append(…))`. Behind a failed
-- write nothing is written.
unfoldable pub run_write : Option String → Session → Session
run_write failure s =
    if s.has_store && ltb s.ran (length s.log)
    then elim s.failed [
      | some broken ↦ record s { ran = s.ran + 1 }
      | none ↦ elim failure [
        | some message ↦ record s { ran = s.ran + 1; failed = some (s.ran, message) }
        | none ↦ elim (get_elem? s.log s.ran) [
          | none ↦ s
          | some e ↦ record s { ran = s.ran + 1; disk = s.disk ++ e ∷ [] }
        ]
      ]
    ]
    else s

-- `durable`, called when the log had `n` events: what the captured chain ends with, once it has.
pub data Barrier : Type 0 where
  waiting reached : Barrier
  broken : String → Barrier

unfoldable pub chain_end : ℕ → Session → Barrier
chain_end n s =
    if not s.has_store then reached else if ltb s.ran n then waiting else elim s.failed [
      | none ↦ reached
      | some (k, message) ↦ if ltb k n then broken message else reached
    ]

-- The barrier settles: the flush follows a chain that has ended well, and any failure poisons the
-- session.
unfoldable pub settle_durable : ℕ → Option String → Session → Barrier × Session
unfolding chain_end
settle_durable n flush s = elim (chain_end n s) [
  | waiting ↦ (waiting, s)
  | broken message ↦ (broken message, record s { poisoned_error = some message })
  | reached ↦ elim (if s.has_store then flush else none) [
    | none ↦ (reached, s)
    | some message ↦ (broken message, record s { poisoned_error = some message })
  ]
]

unfoldable pub dispose : Session → Session
dispose s = record s { disposed = true }

unfoldable pub close : Session → Session
close s = record s { closed = true }

unfoldable pub poisoned : Session → Bool
poisoned s = is_some s.poisoned_error

-- The loop of `fork`: it stops at the first event behind the boundary.
unfoldable pub copy_events : ℕ → List SessionEvent → List SessionEvent → List SessionEvent
copy_events limit [] child = child
copy_events limit (e ∷ events) child =
    let rest = copy_events limit events (child ++ record e { seq = length child + 1 } ∷ []) in
    if ltb limit e.seq then child else rest

unfoldable pub last_seq : List SessionEvent → ℕ
last_seq [] = 0
last_seq (e ∷ []) = e.seq
last_seq (e ∷ f ∷ events) = last_seq (f ∷ events)

-- The forked session's log; its id is new and nothing of it is written yet.
unfoldable pub fork : Option ℕ → Session → List SessionEvent
unfolding copy_events last_seq
fork boundary s = copy_events (or_else boundary (last_seq s.log)) s.log []
