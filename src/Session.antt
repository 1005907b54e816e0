-- ===== src/Session.antt =====
-- harness/session/events.ts: the events of the durable log, as far as the session reads them, and the
-- settings that are projected from them. Arguments of calls, mode snapshots and what only observers
-- read are passed through and stand as numbers.
pub mod Messages
pub mod ExecutedCalls
pub mod Settings
pub mod Log
pub mod Durability
pub mod Forks
pub mod EventFile
pub mod Tests
use mini_dsh.Common.{
  ℕ, zero, suc, ◌+◌, String, Bool, true, false, Option, none, some, List, [], ◌∷◌, ◌++◌, length,
  get_elem?, or_else, first_some,
}

pub record ToolCall : Type 0 where
  pub id : String
  pub name : String
  pub args : ℕ

pub record AttachmentRef : Type 0 where
  pub id : String
  pub name : String
  pub media_type : String

-- A setting that an event may leave out, clear or give.
pub data Field : Type 0 where
  absent cleared : Field
  given : String → Field

pub record SessionGrants : Type 0 where
  pub revision : ℕ
  pub roots : List (String × Bool)

pub record SessionMode : Type 0 where
  pub mode_id : String
  pub revision : ℕ
  pub snapshot : ℕ

-- What a producer appends. The events that neither the model's history nor the settings read have their
-- fields as one number, which is passed through.
pub data SessionAppendedEvent : Type 0 where
  user_message : String → Option (List AttachmentRef) → SessionAppendedEvent
  assistant_message : String → String → Option (List ToolCall) → SessionAppendedEvent
  tool_call : String → ToolCall → SessionAppendedEvent
  tool_result : String → String → SessionAppendedEvent
  session_title : Option String → SessionAppendedEvent
  session_pinned : Bool → SessionAppendedEvent
  session_model : Field → Field → Field → SessionAppendedEvent
  session_mode : SessionMode → SessionAppendedEvent
  session_grants : SessionGrants → SessionAppendedEvent
  turn_start : ℕ → SessionAppendedEvent
  turn_closing : ℕ → SessionAppendedEvent
  step_start : ℕ → SessionAppendedEvent
  assistant_chunk : ℕ → SessionAppendedEvent
  step_end : ℕ → SessionAppendedEvent
  turn_end : ℕ → SessionAppendedEvent
  turn_error : ℕ → SessionAppendedEvent
  approval_request : ℕ → SessionAppendedEvent
  approval_decision : ℕ → SessionAppendedEvent
  input_queued : ℕ → SessionAppendedEvent
  input_settled : ℕ → SessionAppendedEvent
  session_project : ℕ → SessionAppendedEvent
  child_meta : ℕ → SessionAppendedEvent
  child_spawn : ℕ → SessionAppendedEvent
  child_result : ℕ → SessionAppendedEvent
  mcp_call : ℕ → SessionAppendedEvent
  hook_run : ℕ → SessionAppendedEvent
  context_manifest : ℕ → SessionAppendedEvent
  context_body : ℕ → SessionAppendedEvent
  compaction_start : ℕ → SessionAppendedEvent
  compaction_end : ℕ → SessionAppendedEvent
  process_start : ℕ → SessionAppendedEvent
  process_exit : ℕ → SessionAppendedEvent

pub record SessionEvent : Type 0 where
  pub seq : ℕ
  pub timestamp : ℕ
  pub body : SessionAppendedEvent

-- `for (let i = events.length - 1; i >= 0; i--)`, until the body answers: `i` runs over the positions
-- below `n`.
module _ {ℓ} {A : Type ℓ} where
  unfoldable pub pick_at : (SessionAppendedEvent → Option A) → Option SessionEvent → Option A
  pick_at pick none = none
  pick_at pick (some e) = pick e.body

  unfoldable pub last_from : (SessionAppendedEvent → Option A) → List SessionEvent → ℕ → Option A
  unfolding pick_at
  last_from pick events zero = none
  last_from pick events (suc i) =
      first_some (pick_at pick (get_elem? events i)) (last_from pick events i)

  unfoldable pub last_of : (SessionAppendedEvent → Option A) → List SessionEvent → Option A
  unfolding last_from
  last_of pick events = last_from pick events (length events)

unfoldable pub title_in : SessionAppendedEvent → Option (Option String)
title_in (session_title title) = some title
title_in _ = none

unfoldable pub pinned_in : SessionAppendedEvent → Option Bool
pinned_in (session_pinned b) = some b
pinned_in _ = none

unfoldable pub mode_in : SessionAppendedEvent → Option SessionMode
mode_in (session_mode mode) = some mode
mode_in _ = none

unfoldable pub grants_in : SessionAppendedEvent → Option SessionGrants
grants_in (session_grants grants) = some grants
grants_in _ = none

unfoldable pub custom_title : List SessionEvent → Option String
unfolding last_of title_in
custom_title events = or_else (last_of title_in events) none

unfoldable pub pinned : List SessionEvent → Bool
unfolding last_of pinned_in
pinned events = or_else (last_of pinned_in events) false

unfoldable pub session_mode_of : List SessionEvent → Option SessionMode
unfolding last_of mode_in
session_mode_of events = last_of mode_in events

unfoldable pub session_grants_of : List SessionEvent → SessionGrants
unfolding last_of grants_in
session_grants_of events = or_else (last_of grants_in events) (record { revision = 0; roots = [] })

pub record SessionModel : Type 0 where
  pub has_event : Bool
  pub provider : Field
  pub model : Field
  pub thinking_level : Field

unfoldable pub assign_field : Field → Field → Field
assign_field old absent = old
assign_field old new = new

unfoldable pub read_model : SessionModel → SessionAppendedEvent → SessionModel
unfolding assign_field
read_model m (session_model provider model thinking_level) = record {
  has_event = true;
  provider = assign_field m.provider provider;
  model = assign_field m.model model;
  thinking_level = assign_field m.thinking_level thinking_level;
}
read_model m _ = m

unfoldable pub read_models : SessionModel → List SessionEvent → SessionModel
read_models m [] = m
read_models m (e ∷ events) = read_models (read_model m e.body) events

unfoldable pub derive_session_model : List SessionEvent → SessionModel
unfolding read_models read_model
derive_session_model events =
    read_models
      (record { has_event = false; provider = absent; model = absent; thinking_level = absent })
      events
