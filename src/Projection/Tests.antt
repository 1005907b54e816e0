-- ===== src/Projection/Tests.antt =====
-- The projection of a small log.
use mini_dsh.Common.{ℕ, ◌≡◌, refl, ◌↔◌, ◌⊎◌, ◌<◌, true, false, none, some, List, [], ◌∷◌}
use mini_dsh.Projection.Event.{SseEvent, EventType, turn_start, user_message, turn_end}
use mini_dsh.Projection.State.{create_projector}
use mini_dsh.Projection.Apply.{apply, apply_events}
use mini_dsh.Projection.Rows.{apply_publishes, apply_batches}
use mini_dsh.Projection.Phase.{task_phase, task_phase_active, has_open_turn, running, waiting}

abbrev blank : EventType → ℕ → SseEvent
blank type seq = record {
  type = type;
  seq = seq;
  timestamp = none;
  content = none;
  delta = none;
  thinking = false;
  call = none;
  call_id = none;
  ok = false;
  output = none;
  reason = none;
  turn_id = none;
  tool_calls = none;
  controls = none;
  recovery = false;
  outcome = none;
  invocation_id = none;
  input_id = none;
  steer = false;
  attachments = none;
  approval_id = none;
  decision = none;
  kind = none;
  message = none;
  child_session_id = none;
  definition = none;
  brief = none;
  objective = none;
  child_status = none;
  hook = none;
  matcher = none;
  duration_ms = none;
  manifest = none;
  trigger = none;
  model = none;
  covers_seq = none;
  summary_chars = none;
  summary = none;
  error = none;
}

abbrev asking : List SseEvent
asking = blank turn_start 1 ∷ record (blank user_message 2) { content = some "list the files" } ∷ []

abbrev ending : List SseEvent
ending = record (blank turn_end 3) { reason = some "completed" } ∷ []

apply_publishes_example :
    let p = apply_batches (asking ∷ []) create_projector in
    ((apply ending p).view).published ≡ ((apply_events ending p).view).items
apply_publishes_example = apply_publishes (asking ∷ []) ending

task_phase_active_example :
    (((task_phase asking 1 false ≡ running) ⊎ (task_phase asking 1 false ≡ waiting))
      ↔ (has_open_turn asking ≡ true))
    × ((task_phase asking 1 false ≡ waiting) ↔ ((has_open_turn asking ≡ true) × (0 < 1)))
task_phase_active_example = task_phase_active asking 1 false

asking_waits : task_phase asking 1 false ≡ waiting
unfolding task_phase
asking_waits = refl
