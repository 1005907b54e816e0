-- ===== src/Kernel/Events/Quiet.antt =====
-- What is called of a listener that was disposed.
use mini_dsh.Common.Ids.{mem, count, count_snoc}
use mini_dsh.Common.{
  ℕ, zero, suc, ◌+◌, ◌≤◌, ◌≡◌, refl, true, false, not, Option, none, some, List, [], ◌∷◌, ◌++◌, eqb,
  if◌then◌else◌, arith, keep, or_else, Bool-cases, inl, inr, String,
}
use mini_dsh.Common.Dict
use mini_dsh.Kernel.Events.{
  ListenerRecord, EventBus, on, dispose, snapshot, put_back, take_next, stop, call_listener,
  Happening, registers, disposes, dispatches, calls_next, stops, happen, history,
}

-- How often a dispatch has still to call it.
unfoldable pub due : ℕ → List ListenerRecord → ℕ
due id [] = 0
due id (r ∷ list) = (if eqb r.id id then 1 else 0) + due id list

unfoldable pub all_due : ℕ → List (List ListenerRecord) → ℕ
unfolding due
all_due id [] = 0
all_due id (list ∷ running) = due id list + all_due id running

all_due_snoc :
    (id : ℕ) (running : List (List ListenerRecord)) (list : List ListenerRecord)
    → all_due id (running ++ list ∷ []) ≡ due id list + all_due id running
unfolding all_due
all_due_snoc id [] list = refl
all_due_snoc id (x ∷ running) list = omega (arith, all_due_snoc id running list)

mem-other :
    (x id : ℕ) (disposed : List ℕ)
    → mem x disposed ≡ false
    → mem id disposed ≡ true
    → eqb x id ≡ false
unfolding mem
mem-other x id [] h k = ground (arith, k)
mem-other x id (y ∷ disposed) h k = ground (arith, h, k, mem-other x id disposed)

due-keep :
    (id : ℕ) (disposed : List ℕ) (list : List ListenerRecord)
    → mem id disposed ≡ true
    → due id (keep (λ r. not (mem r.id disposed)) list) ≡ 0
unfolding due
due-keep id disposed [] h = refl
due-keep id disposed (r ∷ list) h = elim (Bool-cases (mem r.id disposed)) [
  | inl gone ↦ rw gone (due-keep id disposed list h)
  | inr here ↦
      let other : eqb r.id id ≡ false = mem-other r.id id disposed here h in
      rw here (rw (other, due-keep id disposed list h) (omega arith))
]

-- Of `n` calls that are due, the one that is taken and those that are left.
Leaves : ℕ → ℕ → Option (ListenerRecord × List (List ListenerRecord)) → Type 0
Leaves id n none = Unit
Leaves id n (some (r, left)) = (if eqb r.id id then 1 else 0) + all_due id left ≡ n

put_back-Leaves :
    (id n : ℕ) (list : List ListenerRecord)
    (o : Option (ListenerRecord × List (List ListenerRecord)))
    → Leaves id n o
    → Leaves id (due id list + n) (put_back list o)
unfolding Leaves put_back all_due
put_back-Leaves id n list none l = tt
put_back-Leaves id n list (some p) l = omega (arith, l)

take_next-Leaves :
    (id k : ℕ) (running : List (List ListenerRecord))
    → Leaves id (all_due id running) (take_next k running)
unfolding take_next all_due
take_next-Leaves id k [] = unfold Leaves in tt
take_next-Leaves id zero ([] ∷ running) = unfold Leaves in tt
take_next-Leaves id zero ((r ∷ rest) ∷ running) = unfold Leaves due in omega arith
take_next-Leaves id (suc k) (list ∷ running) =
    put_back-Leaves id (all_due id running) list (take_next k running)
      (take_next-Leaves id k running)

stop-due :
    (id k : ℕ) (running : List (List ListenerRecord))
    → all_due id (stop k running) ≤ all_due id running
unfolding stop all_due
stop-due id k [] = omega arith
stop-due id zero (x ∷ running) = unfold due in omega arith
stop-due id (suc k) (x ∷ running) = omega (arith, stop-due id k running)

-- A disposed listener stays disposed, and what it was called and is due to be called does not grow.
IsQuieter : ℕ → EventBus → EventBus → Type 0
IsQuieter id b c =
    (mem id c.disposed ≡ true)
    × (count id c.calls + all_due id c.running ≤ count id b.calls + all_due id b.running)

dispose-IsQuieter :
    (id : ℕ) (name : String) (called : ℕ) (b c : EventBus)
    → IsQuieter id b c
    → IsQuieter id b (dispose name called c).1
unfolding IsQuieter dispose mem
dispose-IsQuieter id name called b c q = elim (Bool-cases (mem called c.disposed)) [
  | inl gone ↦ rw gone q
  | inr here ↦ rw here (ground (arith, q.0), q.1)
]

call_listener-IsQuieter :
    (id : ℕ) (name : String) (o : Option (ListenerRecord × List (List ListenerRecord)))
    (b : EventBus)
    → mem id b.disposed ≡ true
    → Leaves id (all_due id b.running) o
    → IsQuieter id b (call_listener name o b)
unfolding call_listener
call_listener-IsQuieter id name none b m l = unfold IsQuieter in (m, omega arith)
call_listener-IsQuieter id name (some (r, left)) b m l =
    let called : EventBus = record b { running = left; calls = b.calls ++ r.id ∷ [] } in
    let taken : (if eqb r.id id then 1 else 0) + all_due id left ≡ all_due id b.running =
      unfold Leaves in l in
    let quieter : IsQuieter id b called =
      unfold IsQuieter in (m, omega (arith, taken, count_snoc id r.id b.calls)) in
    elim (Bool-cases r.is_once) [
      | inl one ↦ rw (one, call_listener) (dispose-IsQuieter id name r.id b called quieter)
      | inr more ↦ rw (more, call_listener) quieter
    ]

happen-IsQuieter :
    (id : ℕ) (h : Happening) (b : EventBus) → mem id b.disposed ≡ true → IsQuieter id b (happen h b)
unfolding IsQuieter happen
happen-IsQuieter id (registers name is_once prepend) b m = unfold on in (m, omega arith)
happen-IsQuieter id (disposes name called) b m =
    dispose-IsQuieter id name called b b (m, omega arith)
happen-IsQuieter id (dispatches name) b m =
    unfold snapshot in
    (
      m,
      omega (
        arith,
        all_due_snoc id b.running _,
        due-keep id b.disposed (or_else (Dict.get name b.records) []) m,
      ),
    )
happen-IsQuieter id (calls_next name k) b m =
    call_listener-IsQuieter id name (take_next k b.running) b m (take_next-Leaves id k b.running)
happen-IsQuieter id (stops k) b m = (m, omega (arith, stop-due id k b.running))

history_quiet :
    (id : ℕ) (hs : List Happening) (b : EventBus)
    → mem id b.disposed ≡ true
    → IsQuieter id b (history hs b)
unfolding history IsQuieter
history_quiet id [] b m = (m, omega arith)
history_quiet id (h ∷ hs) b m =
    let first : IsQuieter id b (happen h b) = happen-IsQuieter id h b m in
    let rest : IsQuieter id (happen h b) (history hs (happen h b)) =
      history_quiet id hs (happen h b) first.0 in
    (rest.0, omega (arith, rest.1, first.1))

-- From a state of the bus in which a listener is disposed, whatever happens then: it stays disposed,
-- and the calls it has had and those that running dispatches have still to make of it do not become
-- more, so that a dispatch that begins later does not call it.
pub quiet_lem :
    (id : ℕ) (hs : List Happening) (b : EventBus)
    → mem id b.disposed ≡ true
    → let c = history hs b in
      (mem id c.disposed ≡ true)
      × (count id c.calls + all_due id c.running ≤ count id b.calls + all_due id b.running)
quiet_lem id hs b m = unfold IsQuieter in history_quiet id hs b m
