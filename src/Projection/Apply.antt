-- ===== src/Projection/Apply.antt =====
-- `apply` of the projector, and `projectItems`.
use mini_dsh.Common.{List, [], ◌∷◌}
use mini_dsh.Projection.View
use mini_dsh.Projection.Item.{ViewItem}
use mini_dsh.Projection.Event.{
  SseEvent, EventType, turn_start, user_message, input_queued, input_settled, assistant_chunk,
  assistant_message, tool_call, tool_result, approval_request, approval_decision, hook_run,
  child_spawn, child_result, context_manifest, compaction_start, compaction_end, turn_error,
  turn_end, other,
}
use mini_dsh.Projection.State.{Projector, create_projector}
use mini_dsh.Projection.Inputs.{on_user_message, on_input_queued, on_input_settled}
use mini_dsh.Projection.Answers.{on_assistant_chunk, on_assistant_message}
use mini_dsh.Projection.Tools.{on_tool_call, on_tool_result}
use mini_dsh.Projection.Audit.{on_approval_request, on_approval_decision, on_hook_run}
use mini_dsh.Projection.Turn.{
  on_turn_start, on_child_spawn, on_child_result, on_context_manifest, on_compaction_start,
  on_compaction_end, interrupt_compaction, on_turn_error, on_turn_end,
}

-- The `switch` over the event's type.
unfoldable pub dispatch : EventType → SseEvent → Projector → Projector
dispatch turn_start e p = on_turn_start e p
dispatch user_message e p = on_user_message e p
dispatch input_queued e p = on_input_queued e p
dispatch input_settled e p = on_input_settled e p
dispatch assistant_chunk e p = on_assistant_chunk e p
dispatch assistant_message e p = on_assistant_message e p
dispatch tool_call e p = on_tool_call e p
dispatch tool_result e p = on_tool_result e p
dispatch approval_request e p = on_approval_request e p
dispatch approval_decision e p = on_approval_decision e p
dispatch hook_run e p = on_hook_run e p
dispatch child_spawn e p = on_child_spawn e p
dispatch child_result e p = on_child_result e p
dispatch context_manifest e p = on_context_manifest e p
dispatch compaction_start e p = on_compaction_start e p
dispatch compaction_end e p = on_compaction_end e p
dispatch turn_error e p = on_turn_error e p
dispatch turn_end e p = on_turn_end e p
dispatch other e p = p

unfoldable pub move_on : EventType → Projector → Projector
move_on compaction_end p = p
move_on _ p = interrupt_compaction p

-- One round of the loop of `apply`.
unfoldable pub apply_event : SseEvent → Projector → Projector
unfolding move_on
apply_event e p = dispatch e.type e (move_on e.type p)

unfoldable pub apply_events : List SseEvent → Projector → Projector
apply_events [] p = p
apply_events (e ∷ events) p = apply_events events (apply_event e p)

-- The list that `apply` returns is the view's `published`.
unfoldable pub apply : List SseEvent → Projector → Projector
apply events p = let p' = apply_events events p in record p' { view = View.publish p'.view }

unfoldable pub project_items : List SseEvent → List ViewItem
project_items events = ((apply events create_projector).view).published
