-- ===== src/Projection/Phase.antt =====
-- `taskPhase` and `isTurnRunning`: what the activity indicators read off the log.
use mini_dsh.Common.{
  ℕ, ◌+◌, ◌-◌, ◌<◌, String, ◌≡◌, ◌↔◌, ◌⊎◌, Bool, true, Option, none, some, List, [], ◌∷◌, ◌==◌, ltb,
  ◌||◌, ◌∙◌, subst, false, if◌then◌else◌, arith,
}
use mini_dsh.Common.Keys
use mini_dsh.Projection.Event.{
  SseEvent, EventType, turn_start, turn_end, user_message, input_queued, input_settled, given,
}

pub data TaskPhase : Type 0 where
  idle preparing held running waiting completed failed interrupted cancelled steered : TaskPhase
  rejected empty limit : TaskPhase

unfoldable pub turn_depth : ℕ → EventType → ℕ
turn_depth depth turn_start = depth + 1
turn_depth depth turn_end = depth - 1
turn_depth depth _ = depth

unfoldable pub open_turns : ℕ → List SseEvent → ℕ
unfolding turn_depth
open_turns depth [] = depth
open_turns depth (e ∷ events) = open_turns (turn_depth depth e.type) events

unfoldable pub is_turn_running : List SseEvent → Bool
unfolding open_turns
is_turn_running events = ltb 0 (open_turns 0 events)

-- The phase in which a turn leaves the task: its reason if that is terminal, and `failed` otherwise.
unfoldable pub end_phase : Option String → TaskPhase
end_phase none = failed
end_phase (some reason) =
    if reason == "completed"
    then completed
    else if reason == "interrupted"
    then interrupted
    else if reason == "cancelled"
    then cancelled
    else if reason == "steered"
    then steered
    else if reason == "rejected"
    then rejected
    else if reason == "empty"
    then empty
    else if reason == "limit"
    then limit
    else failed

unfoldable pub queue_id : Option String → List String → List String
queue_id none queued = queued
queue_id (some id) queued = Keys.add id queued

unfoldable pub unqueue_id : Option String → List String → List String
unqueue_id none queued = queued
unqueue_id (some id) queued = Keys.remove id queued

unfoldable pub scan_event : EventType → SseEvent → List String → TaskPhase → List String × TaskPhase
scan_event input_queued e queued phase = (queue_id (given e.input_id) queued, phase)
scan_event user_message e queued phase = (unqueue_id (given e.input_id) queued, phase)
scan_event input_settled e queued phase = (unqueue_id (given e.input_id) queued, phase)
scan_event turn_end e queued phase = (queued, end_phase e.reason)
scan_event _ e queued phase = (queued, phase)

unfoldable pub scan : List SseEvent → List String → TaskPhase → List String × TaskPhase
unfolding scan_event
scan [] queued phase = (queued, phase)
scan (e ∷ events) queued phase =
    let (queued', phase') = scan_event e.type e queued phase in scan events queued' phase'

unfoldable pub resting : List String → TaskPhase → TaskPhase
resting [] phase = phase
resting (id ∷ queued) cancelled = held
resting (id ∷ queued) interrupted = held
resting (id ∷ queued) _ = preparing

unfoldable pub task_phase : List SseEvent → ℕ → Bool → TaskPhase
unfolding scan resting is_turn_running
task_phase events pending_approvals sending =
    if is_turn_running events
    then (if ltb 0 pending_approvals then waiting else running)
    else if sending
    then preparing
    else let (queued, phase) = scan events [] idle in resting queued phase

abbrev IsActive : TaskPhase → Type 0
IsActive phase = (phase ≡ running) ⊎ (phase ≡ waiting)

end_phase_rests : (reason : Option String) → (IsActive (end_phase reason) → ⊥)
unfolding end_phase
end_phase_rests none h = ground arith
end_phase_rests (some reason) h = ground arith

scan_rests :
    (events : List SseEvent) (queued : List String) (phase : TaskPhase)
    → ¬ IsActive phase
    → ¬ IsActive (scan events queued phase).1
unfolding scan
scan_rests [] queued phase h = h
scan_rests (e ∷ events) queued phase h = scan_rests events _ _ (event_rests e.type)
  where
    event_rests : (t : EventType) → ¬ IsActive (scan_event t e queued phase).1
    event_rests turn_end = end_phase_rests e.reason
    event_rests _ = h

resting_rests :
    (queued : List String) (phase : TaskPhase)
    → ¬ IsActive phase
    → ¬ IsActive (resting queued phase)
unfolding resting
resting_rests [] phase h = h
resting_rests (id ∷ queued) phase h = ground arith

-- How many turns start, and how many end.
unfoldable pub start_count : EventType → ℕ
start_count turn_start = 1
start_count _ = 0

unfoldable pub end_count : EventType → ℕ
end_count turn_end = 1
end_count _ = 0

unfoldable pub starts : List SseEvent → ℕ
unfolding start_count
starts [] = 0
starts (e ∷ events) = start_count e.type + starts events

unfoldable pub ends : List SseEvent → ℕ
unfolding end_count
ends [] = 0
ends (e ∷ events) = end_count e.type + ends events

-- From some event on, more turns start than end.
unfoldable pub has_open_turn : List SseEvent → Bool
unfolding starts ends
has_open_turn [] = false
has_open_turn (e ∷ events) = ltb (ends (e ∷ events)) (starts (e ∷ events)) || has_open_turn events

surplus-has_open_turn :
    (events : List SseEvent) → ends events < starts events → has_open_turn events ≡ true
unfolding has_open_turn starts ends
surplus-has_open_turn [] h = absurd (omega (arith, h))
surplus-has_open_turn (e ∷ events) h = ground (arith, h)

-- One event, in front of events that start and end so many turns.
turn_depth_step :
    (t : EventType) (depth started ended : ℕ) (later : Bool)
    → (ended < started → later ≡ true)
    → (ltb ended (turn_depth depth t + started) || later) ≡ (
        ltb (end_count t + ended) (depth + (start_count t + started))
        || (ltb (end_count t + ended) (start_count t + started) || later))
unfolding turn_depth start_count end_count
turn_depth_step turn_start depth started ended later h = ground (arith, h)
turn_depth_step turn_end depth started ended later h = ground (arith, h)
turn_depth_step _ depth started ended later h = ground (arith, h)

open_turns-has_open_turn :
    (depth : ℕ) (events : List SseEvent)
    → ltb 0 (open_turns depth events)
      ≡ (ltb (ends events) (depth + starts events) || has_open_turn events)
unfolding open_turns has_open_turn starts ends
open_turns-has_open_turn depth [] = ground arith
open_turns-has_open_turn depth (e ∷ events) =
    open_turns-has_open_turn (turn_depth depth e.type) events
    ∙ turn_depth_step e.type depth (starts events) (ends events) (has_open_turn events)
        (surplus-has_open_turn events)

is_turn_running_lem : (events : List SseEvent) → is_turn_running events ≡ has_open_turn events
unfolding is_turn_running
is_turn_running_lem events =
    let all = open_turns-has_open_turn 0 events in
    let surplus = surplus-has_open_turn events in ground (arith, all, surplus)

task_phase_cases :
    (events : List SseEvent) (approvals : ℕ) (sending : Bool)
    → (((task_phase events approvals sending ≡ running)
          ⊎ (task_phase events approvals sending ≡ waiting))
        ↔ (is_turn_running events ≡ true))
      × ((task_phase events approvals sending ≡ waiting)
          ↔ ((is_turn_running events ≡ true) × (0 < approvals)))
unfolding task_phase
task_phase_cases events approvals sending =
    let rest = scan_rests events [] idle (ground arith) in
    let calm = resting_rests (scan events [] idle).0 (scan events [] idle).1 rest in
    (
      (λ h. ground (arith, calm), λ h. ground arith),
      (λ h. (ground (arith, calm), ground (arith, calm)), λ h. ground arith),
    )

-- The indicators show a running or waiting task exactly if from some event of the log on more turns
-- start than end; it is waiting exactly when an approval is pending then.
pub task_phase_active :
    (events : List SseEvent) (approvals : ℕ) (sending : Bool)
    → (((task_phase events approvals sending ≡ running)
          ⊎ (task_phase events approvals sending ≡ waiting))
        ↔ (has_open_turn events ≡ true))
      × ((task_phase events approvals sending ≡ waiting)
          ↔ ((has_open_turn events ≡ true) × (0 < approvals)))
task_phase_active events approvals sending =
    let cases = task_phase_cases events approvals sending in
    let same = is_turn_running_lem events in
    subst
      (λ b.
        (((task_phase events approvals sending ≡ running)
            ⊎ (task_phase events approvals sending ≡ waiting))
          ↔ (b ≡ true))
        × ((task_phase events approvals sending ≡ waiting) ↔ ((b ≡ true) × (0 < approvals))))
      same cases
