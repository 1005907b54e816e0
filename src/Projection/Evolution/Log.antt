-- ===== src/Projection/Evolution/Log.antt =====
-- The cases that close a turn, and whole logs.
use mini_dsh.Common.{ℕ, String, ◌≡◌, refl, Option, none, some, List, [], ◌∷◌}
use mini_dsh.Common.Dict.{Dict}
use mini_dsh.Projection.Item.{
  ViewItem, delegation, compaction, DelegationItem, DelegationStatus, CompactionItem,
  CompactionStatus,
}
use mini_dsh.Projection.Event.{
  SseEvent, EventType, turn_start, user_message, input_queued, input_settled, assistant_chunk,
  assistant_message, tool_call, tool_result, approval_request, approval_decision, hook_run,
  child_spawn, child_result, context_manifest, compaction_start, compaction_end, turn_error,
  turn_end, other,
}
use mini_dsh.Projection.State.{Projector}
use mini_dsh.Projection.Inputs.{on_user_message, on_input_queued, on_input_settled}
use mini_dsh.Projection.Answers.{on_assistant_chunk, on_assistant_message}
use mini_dsh.Projection.Tools.{on_tool_call, on_tool_result}
use mini_dsh.Projection.Audit.{on_approval_request}
use mini_dsh.Projection.Turn.{
  on_turn_start, on_child_spawn, on_child_result, on_context_manifest, on_compaction_start,
  close_compaction, on_compaction_end, interrupt, interrupt_compaction, report_error, on_turn_error,
  close_draft, close_answers, close_turn, interrupt_child, interrupt_children, report_end,
  on_turn_end,
}
use mini_dsh.Projection.Apply.{dispatch, move_on, apply_event, apply_events}
use mini_dsh.Projection.Evolution.Messages.{
  user_message-Evolves, enqueue-Evolves, settle_input-Evolves, write_chunk-Evolves,
  finish_answer-Evolves, record_call-Evolves, record_result-Evolves,
}
use mini_dsh.Projection.Evolution.Activity.{
  request_approval-Evolves, approval_decision-Evolves, hook_run-Evolves, spawn_child-Evolves,
  settle_child-Evolves, note_manifest-Evolves,
}
use mini_dsh.Projection.Evolution.{
  Evolves, stay, added, amended, Evolves-trans, on_assistant-kind, on_delegation-kind,
  on_compaction-kind,
}

close_compaction-Evolves :
    (o : Option ℕ) (e : SseEvent) (p : Projector) → Evolves p.view (close_compaction o e p).view
unfolding close_compaction
close_compaction-Evolves none e p = added stay _
close_compaction-Evolves (some n) e p = amended stay n _ (on_compaction-kind _)

running_compaction-Evolves :
    (n : ℕ) (i : CompactionItem) (s : CompactionStatus) (p : Projector)
    → i.status ≡ s
    → Evolves p.view (interrupt (some n) (some (compaction i)) p).view
unfolding interrupt
running_compaction-Evolves n i CompactionStatus.running p h =
    rw h (amended stay n _ (on_compaction-kind _))
running_compaction-Evolves n i CompactionStatus.completed p h = rw h stay
running_compaction-Evolves n i CompactionStatus.failed p h = rw h stay
running_compaction-Evolves n i CompactionStatus.interrupted p h = rw h stay

interrupt-Evolves :
    (o : Option ℕ) (a : Option ViewItem) (p : Projector) → Evolves p.view (interrupt o a p).view
unfolding interrupt
interrupt-Evolves (some n) (some (compaction i)) p = running_compaction-Evolves n i i.status p refl
interrupt-Evolves _ _ p = stay

report_error-Evolves :
    (o : Option String) (e : SseEvent) (p : Projector) → Evolves p.view (report_error o e p).view
unfolding report_error
report_error-Evolves none e p = stay
report_error-Evolves (some message) e p = added stay _

close_draft-Evolves : (o : Option ℕ) (p : Projector) → Evolves p.view (close_draft o p).view
unfolding close_draft
close_draft-Evolves none p = stay
close_draft-Evolves (some n) p = amended stay n _ (on_assistant-kind _)

close_answers-Evolves : (ns : List ℕ) (p : Projector) → Evolves p.view (close_answers ns p).view
unfolding close_answers
close_answers-Evolves [] p = stay
close_answers-Evolves (n ∷ ns) p =
    Evolves-trans (amended stay n _ (on_assistant-kind _)) (close_answers-Evolves ns _)

close_turn-Evolves : (o : Option String) (p : Projector) → Evolves p.view (close_turn o p).view
unfolding close_turn
close_turn-Evolves none p = stay
close_turn-Evolves (some id) p = close_answers-Evolves _ p

running_child-Evolves :
    (n : ℕ) (i : DelegationItem) (s : DelegationStatus) (p : Projector)
    → i.status ≡ s
    → Evolves p.view (interrupt_child n (some (delegation i)) p).view
unfolding interrupt_child
running_child-Evolves n i DelegationStatus.running p h =
    rw h (amended stay n _ (on_delegation-kind _))
running_child-Evolves n i DelegationStatus.completed p h = rw h stay
running_child-Evolves n i DelegationStatus.failed p h = rw h stay
running_child-Evolves n i DelegationStatus.cancelled p h = rw h stay
running_child-Evolves n i DelegationStatus.interrupted p h = rw h stay

interrupt_child-Evolves :
    (n : ℕ) (a : Option ViewItem) (p : Projector) → Evolves p.view (interrupt_child n a p).view
unfolding interrupt_child
interrupt_child-Evolves n (some (delegation i)) p = running_child-Evolves n i i.status p refl
interrupt_child-Evolves n _ p = stay

interrupt_children-Evolves :
    (ds : Dict ℕ) (p : Projector) → Evolves p.view (interrupt_children ds p).view
unfolding interrupt_children
interrupt_children-Evolves [] p = stay
interrupt_children-Evolves ((child, n) ∷ ds) p =
    Evolves-trans (interrupt_child-Evolves n _ p) (interrupt_children-Evolves ds _)

report_end-Evolves : (o : Option String) (p : Projector) → Evolves p.view (report_end o p).view
unfolding report_end
report_end-Evolves none p = stay
report_end-Evolves (some reason) p = added stay _

turn_end-Evolves : (e : SseEvent) (p : Projector) → Evolves p.view (on_turn_end e p).view
unfolding on_turn_end
turn_end-Evolves e p = Evolves-trans (close_draft-Evolves p.draft p) (
    Evolves-trans (close_turn-Evolves _ _)
      (Evolves-trans (interrupt_children-Evolves _ _) (report_end-Evolves e.reason _)))

dispatch-Evolves :
    (t : EventType) (e : SseEvent) (p : Projector) → Evolves p.view (dispatch t e p).view
unfolding dispatch on_user_message on_input_queued on_input_settled on_assistant_chunk
    on_assistant_message on_tool_call on_tool_result on_approval_request on_turn_start
    on_child_spawn on_child_result on_context_manifest on_compaction_start on_compaction_end
    on_turn_error
dispatch-Evolves turn_start e p = stay
dispatch-Evolves user_message e p = user_message-Evolves e.content e p
dispatch-Evolves input_queued e p = enqueue-Evolves _ _ e p
dispatch-Evolves input_settled e p = settle_input-Evolves _ e p
dispatch-Evolves assistant_chunk e p = write_chunk-Evolves _ e p
dispatch-Evolves assistant_message e p = finish_answer-Evolves p.draft e _ p
dispatch-Evolves tool_call e p = record_call-Evolves _ e p
dispatch-Evolves tool_result e p = record_result-Evolves _ e p
dispatch-Evolves approval_request e p = request_approval-Evolves _ _ p
dispatch-Evolves approval_decision e p = approval_decision-Evolves e p
dispatch-Evolves hook_run e p = hook_run-Evolves e p
dispatch-Evolves child_spawn e p = spawn_child-Evolves _ e p
dispatch-Evolves child_result e p = settle_child-Evolves _ e p
dispatch-Evolves context_manifest e p = note_manifest-Evolves _ e p
dispatch-Evolves compaction_start e p = added stay _
dispatch-Evolves compaction_end e p = close_compaction-Evolves _ e p
dispatch-Evolves turn_error e p = report_error-Evolves _ e p
dispatch-Evolves turn_end e p = turn_end-Evolves e p
dispatch-Evolves other e p = stay

move_on-Evolves : (t : EventType) (p : Projector) → Evolves p.view (move_on t p).view
unfolding move_on interrupt_compaction
move_on-Evolves compaction_end p = stay
move_on-Evolves _ p = interrupt-Evolves _ _ p

pub apply_events-Evolves :
    (events : List SseEvent) (p : Projector) → Evolves p.view (apply_events events p).view
unfolding apply_events apply_event
apply_events-Evolves [] p = stay
apply_events-Evolves (e ∷ events) p =
    Evolves-trans (Evolves-trans (move_on-Evolves e.type p) (dispatch-Evolves e.type e _))
      (apply_events-Evolves events _)
