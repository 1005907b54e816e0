-- ===== src/Projection/Event.antt =====
-- web/lib/types.ts: one event of the log, with the fields that the projection reads. An optional
-- Boolean whose absence reads as false is a Boolean.
use mini_dsh.Common.{ℕ, String, Bool, Option, none, some, List, ◌==◌, if◌then◌else◌}
use mini_dsh.Projection.Item.{AttachmentRef, ToolCall, Controls, Manifest}

pub data EventType : Type 0 where
  turn_start user_message input_queued input_settled assistant_chunk assistant_message : EventType
  tool_call tool_result approval_request approval_decision hook_run child_spawn : EventType
  child_result context_manifest compaction_start compaction_end turn_error turn_end : EventType
  other : EventType

pub record SseEvent : Type 0 where
  pub type : EventType
  pub seq : ℕ
  pub timestamp : Option ℕ
  pub content : Option String
  pub delta : Option String
  pub thinking : Bool
  pub call : Option ToolCall
  pub call_id : Option String
  pub ok : Bool
  pub output : Option String
  pub reason : Option String
  pub turn_id : Option String
  pub tool_calls : Option (List ToolCall)
  pub controls : Option Controls
  pub recovery : Bool
  pub outcome : Option String
  pub invocation_id : Option String
  pub input_id : Option String
  pub steer : Bool
  pub attachments : Option (List AttachmentRef)
  pub approval_id : Option String
  pub decision : Option String
  pub kind : Option String
  pub message : Option String
  pub child_session_id : Option String
  pub definition : Option String
  pub brief : Option String
  pub objective : Option String
  pub child_status : Option String
  pub hook : Option String
  pub matcher : Option String
  pub duration_ms : Option ℕ
  pub manifest : Option Manifest
  pub trigger : Option String
  pub model : Option String
  pub covers_seq : Option ℕ
  pub summary_chars : Option ℕ
  pub summary : Option String
  pub error : Option String

-- `x !== undefined && x !== ''`.
unfoldable pub given : Option String → Option String
given none = none
given (some s) = if s == "" then none else some s
