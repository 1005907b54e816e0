-- ===== src/Projection/Evolution.antt =====
-- What one event can do to the items: it adds some at the end and changes some in place, each change
-- with its `touch`, and no change alters an item's kind.
pub mod Messages
pub mod Activity
pub mod Log
use mini_dsh.Common.{
  ℕ, zero, suc, String, ◌≡◌, refl, Bool, true, false, Option, none, some, List, [], ◌∷◌, arith,
  is_some, Bool-cases, Option-cases, inl, inr, ◌==◌, ◌&&◌, not, get_elem?, or_else,
}
use mini_dsh.Common.Dict
use mini_dsh.Common.Dict.{Dict}
use mini_dsh.Common.Keys
use mini_dsh.Projection.View
use mini_dsh.Projection.View.{View}
use mini_dsh.Projection.Item.{
  ViewItem, user, assistant, tool, delegation, audit, status, compaction, context, kind_of,
  UserItem, AssistantItem, ToolItem, DelegationItem, DelegationStatus, CompactionItem,
  CompactionStatus, ContextItem, on_user, on_assistant, on_tool, on_delegation, on_compaction,
  on_context, RetryInput, NotSent, Manifest, ToolCall,
}
use mini_dsh.Projection.Event.{
  SseEvent, EventType, turn_start, user_message, input_queued, input_settled, assistant_chunk,
  assistant_message, tool_call, tool_result, approval_request, approval_decision, hook_run,
  child_spawn, child_result, context_manifest, compaction_start, compaction_end, turn_error,
  turn_end, other, given,
}
use mini_dsh.Projection.State.{Projector, track_assistant}
use mini_dsh.Projection.Inputs.{
  claim_input, deliver, receive, user_message_content, on_user_message, enqueue, on_input_queued,
  set_not_sent, unqueue, claim_settled, settle_pending, settle_input, on_input_settled, not_sent_of,
}
use mini_dsh.Projection.Answers.{
  push_answer, new_answer, ensure_draft, write_chunk, on_assistant_chunk, finish_answer,
  on_assistant_message,
}
use mini_dsh.Projection.Tools.{
  record_call, on_tool_call, record_result, on_tool_result, item_of_call,
}
use mini_dsh.Projection.Audit.{
  request_approval, on_approval_request, undecided, on_approval_decision, hook_failed, on_hook_run,
}
use mini_dsh.Projection.Turn.{
  on_turn_start, spawn, spawn_child, on_child_spawn, find_child, settle_child, on_child_result,
  place_manifest, note_manifest, on_context_manifest, on_compaction_start, close_compaction,
  on_compaction_end, interrupt, item_at, interrupt_compaction, report_error, on_turn_error,
  close_draft, close_answers, close_turn, interrupt_child, interrupt_children, report_end,
  on_turn_end,
}
use mini_dsh.Projection.Apply.{dispatch, move_on, apply_event, apply_events}

pub data Evolves (v : View ViewItem) : View ViewItem → Type 0 where
  stay : Evolves v v
  added : {w : View ViewItem} → Evolves v w → (item : ViewItem) → Evolves v (View.add item w)
  amended :
      {w : View ViewItem}
      → Evolves v w
      → (n : ℕ) (f : ViewItem → ViewItem) → ((a : ViewItem) → kind_of (f a) ≡ kind_of a)
      → Evolves v (View.amend n f w)

pub Evolves-trans : {u v w : View ViewItem} → Evolves u v → Evolves v w → Evolves u w
Evolves-trans r stay = r
Evolves-trans r (added s item) = added (Evolves-trans r s) item
Evolves-trans r (amended s n f k) = amended (Evolves-trans r s) n f k

pub on_user-kind : (f : UserItem → UserItem) (a : ViewItem) → kind_of (on_user f a) ≡ kind_of a
on_user-kind f (user i) = refl
on_user-kind f _ = refl

pub on_assistant-kind :
    (f : AssistantItem → AssistantItem) (a : ViewItem) → kind_of (on_assistant f a) ≡ kind_of a
on_assistant-kind f (assistant i) = refl
on_assistant-kind f _ = refl

pub on_tool-kind : (f : ToolItem → ToolItem) (a : ViewItem) → kind_of (on_tool f a) ≡ kind_of a
on_tool-kind f (tool i) = refl
on_tool-kind f _ = refl

pub on_delegation-kind :
    (f : DelegationItem → DelegationItem) (a : ViewItem) → kind_of (on_delegation f a) ≡ kind_of a
on_delegation-kind f (delegation i) = refl
on_delegation-kind f _ = refl

pub on_compaction-kind :
    (f : CompactionItem → CompactionItem) (a : ViewItem) → kind_of (on_compaction f a) ≡ kind_of a
on_compaction-kind f (compaction i) = refl
on_compaction-kind f _ = refl

pub on_context-kind :
    (f : ContextItem → ContextItem) (a : ViewItem) → kind_of (on_context f a) ≡ kind_of a
on_context-kind f (context i) = refl
on_context-kind f _ = refl

pub settled-kind :
    (why : Option NotSent) (a : ViewItem) → kind_of (set_not_sent why (unqueue a)) ≡ kind_of a
settled-kind none a = on_user-kind _ a
settled-kind (some why) (user i) = refl
settled-kind (some why) _ = refl
