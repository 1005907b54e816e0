-- ===== src/Kernel/Events.antt =====
-- kernel/events.ts: the listeners of the event bus, and its dispatches in registration order. A
-- listener is known by the number of its registration. Dispatches of `emit`, `serial` and `bail` run
-- side by side, since a listener may dispatch itself and `serial` awaits each listener.
use mini_dsh.Common.Ids.{mem}
use mini_dsh.Common.{
  ℕ, zero, suc, ◌+◌, Bool, true, false, not, Option, none, some, List, [], ◌∷◌, ◌++◌, String, eqb,
  if◌then◌else◌, keep, or_else,
}
use mini_dsh.Common.Dict
use mini_dsh.Common.Dict.{Dict}
mod Quiet
mod Tests

-- `is_once` tells that the listener is the wrapper of `once`.
pub record ListenerRecord : Type 0 where
  pub id : ℕ
  pub is_once : Bool

-- `disposed` holds the records whose flag is set, `running` what each dispatch has still to call, and
-- `calls` the calls so far.
pub record EventBus : Type 0 where
  pub records : Dict (List ListenerRecord)
  pub disposed : List ℕ
  pub next_id : ℕ
  pub running : List (List ListenerRecord)
  pub calls : List ℕ

abbrev pub new_bus : EventBus
new_bus = record { records = []; disposed = []; next_id = 0; running = []; calls = [] }

-- `on`, and `once` with `is_once`.
unfoldable pub on : String → Bool → Bool → EventBus → EventBus
unfolding Dict.get Dict.set
on name is_once prepend b =
    let r : ListenerRecord = record { id = b.next_id; is_once = is_once } in
    let list = or_else (Dict.get name b.records) [] in
    record b {
      records = Dict.set name (if prepend then r ∷ list else list ++ r ∷ []) b.records;
      next_id = suc b.next_id;
    }

-- `indexOf` and `splice`.
unfoldable pub remove_record : ℕ → List ListenerRecord → List ListenerRecord
remove_record id [] = []
remove_record id (r ∷ list) =
    let rest = remove_record id list in if eqb r.id id then list else r ∷ rest

unfoldable pub splice_record : String → ℕ → Dict (List ListenerRecord) → Dict (List ListenerRecord)
unfolding Dict.get Dict.set remove_record
splice_record name id records = elim (Dict.get name records) [
  | none ↦ records
  | some current ↦ Dict.set name (remove_record id current) records
]

-- A call of the disposer of a listener, and its answer.
unfoldable pub dispose : String → ℕ → EventBus → Bool × EventBus
unfolding mem splice_record
dispose name id b =
    if mem id b.disposed
    then (false, b)
    else (true, record b { disposed = id ∷ b.disposed; records = splice_record name id b.records })

unfoldable pub snapshot : String → EventBus → List ListenerRecord
unfolding Dict.get mem
snapshot name b = keep (λ r. not (mem r.id b.disposed)) (or_else (Dict.get name b.records) [])

unfoldable pub put_back :
    List ListenerRecord
    → Option (ListenerRecord × List (List ListenerRecord))
    → Option (ListenerRecord × List (List ListenerRecord))
put_back list none = none
put_back list (some (r, left)) = some (r, list ∷ left)

-- The next listener of the `k`-th dispatch, and what is left to call.
unfoldable pub take_next :
    ℕ → List (List ListenerRecord) → Option (ListenerRecord × List (List ListenerRecord))
unfolding put_back
take_next k [] = none
take_next zero ([] ∷ running) = none
take_next zero ((r ∷ rest) ∷ running) = some (r, rest ∷ running)
take_next (suc k) (list ∷ running) = put_back list (take_next k running)

-- The `k`-th dispatch ends: a bail value, or an error.
unfoldable pub stop : ℕ → List (List ListenerRecord) → List (List ListenerRecord)
stop k [] = []
stop zero (list ∷ running) = [] ∷ running
stop (suc k) (list ∷ running) = list ∷ stop k running

-- A listener is called; the wrapper of `once` disposes itself first.
unfoldable pub call_listener :
    String → Option (ListenerRecord × List (List ListenerRecord)) → EventBus → EventBus
unfolding dispose
call_listener name none b = b
call_listener name (some (r, left)) b =
    let called : EventBus = record b { running = left; calls = b.calls ++ r.id ∷ [] } in
    if r.is_once then (dispose name r.id called).1 else called

pub data Happening : Type 0 where
  registers : String → Bool → Bool → Happening
  disposes : String → ℕ → Happening
  dispatches : String → Happening
  -- The `k`-th dispatch, of an event of that name, calls its next listener.
  calls_next : String → ℕ → Happening
  stops : ℕ → Happening

unfoldable pub happen : Happening → EventBus → EventBus
unfolding on dispose snapshot take_next call_listener stop
happen (registers name is_once prepend) b = on name is_once prepend b
happen (disposes name id) b = (dispose name id b).1
happen (dispatches name) b = record b { running = b.running ++ snapshot name b ∷ [] }
happen (calls_next name k) b = call_listener name (take_next k b.running) b
happen (stops k) b = record b { running = stop k b.running }

unfoldable pub history : List Happening → EventBus → EventBus
unfolding happen
history [] b = b
history (h ∷ hs) b = history hs (happen h b)
