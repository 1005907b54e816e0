-- ===== src/Projection/Evolution/Messages.antt =====
-- The cases for messages, answers and tool calls.
use mini_dsh.Common.{
  ℕ, String, ◌≡◌, refl, Option, none, some, is_some, Bool-cases, inl, inr, ◌==◌, ◌&&◌, not,
}
use mini_dsh.Common.Keys
use mini_dsh.Projection.Item.{AssistantItem, RetryInput, ToolCall}
use mini_dsh.Projection.Event.{SseEvent, given}
use mini_dsh.Projection.State.{Projector, track_assistant}
use mini_dsh.Projection.Inputs.{
  claim_input, deliver, receive, user_message_content, enqueue, unqueue, claim_settled,
  settle_pending, settle_input, not_sent_of,
}
use mini_dsh.Projection.Answers.{push_answer, ensure_draft, write_chunk, finish_answer}
use mini_dsh.Projection.Tools.{record_call, record_result}
use mini_dsh.Projection.Evolution.{
  Evolves, stay, added, amended, Evolves-trans, on_user-kind, on_assistant-kind, on_tool-kind,
  settled-kind,
}

pub claim_input-Evolves :
    (id : String) (input : RetryInput) (p : Projector)
    → Evolves p.view (claim_input id input p).view
unfolding claim_input
claim_input-Evolves id input p = elim (Bool-cases (Keys.mem id p.turn_input_ids)) [
  | inl e ↦ rw e stay
  | inr e ↦ rw e stay
]

pub deliver-Evolves :
    (id : String) (o : Option ℕ) (e : SseEvent) (content : String) (p : Projector)
    → Evolves p.view (deliver id o e content p).view
unfolding deliver
deliver-Evolves id none e content p = added stay _
deliver-Evolves id (some n) e content p = amended stay n unqueue (on_user-kind _)

pub receive-Evolves :
    (id : Option String) (e : SseEvent) (content : String) (p : Projector)
    → Evolves p.view (receive id e content p).view
unfolding receive
receive-Evolves none e content p = added stay _
receive-Evolves (some id) e content p =
    Evolves-trans (claim_input-Evolves id _ p) (deliver-Evolves id _ e content _)

pub user_message-Evolves :
    (content : Option String) (e : SseEvent) (p : Projector)
    → Evolves p.view (user_message_content content e p).view
unfolding user_message_content
user_message-Evolves none e p = stay
user_message-Evolves (some content) e p = receive-Evolves (given e.input_id) e content p

pub enqueue-Evolves :
    (id content : Option String) (e : SseEvent) (p : Projector)
    → Evolves p.view (enqueue id content e p).view
unfolding enqueue
enqueue-Evolves none content e p = stay
enqueue-Evolves (some id) none e p = stay
enqueue-Evolves (some id) (some content) e p = added stay _

pub claim_settled-Evolves :
    (id : String) (o : Option RetryInput) (p : Projector)
    → Evolves p.view (claim_settled id o p).view
unfolding claim_settled
claim_settled-Evolves id none p = stay
claim_settled-Evolves id (some input) p = claim_input-Evolves id input p

pub settle_pending-Evolves :
    (id : String) (o : Option ℕ) (e : SseEvent) (p : Projector)
    → Evolves p.view (settle_pending id o e p).view
unfolding settle_pending
settle_pending-Evolves id none e p = stay
settle_pending-Evolves id (some n) e p = amended stay n _ (settled-kind (not_sent_of e.outcome))

pub settle_input-Evolves :
    (id : Option String) (e : SseEvent) (p : Projector) → Evolves p.view (settle_input id e p).view
unfolding settle_input
settle_input-Evolves none e p = stay
settle_input-Evolves (some id) e p =
    Evolves-trans (claim_settled-Evolves id _ p) (settle_pending-Evolves id _ e _)

pub track_assistant-Evolves :
    (o : Option String) (n : ℕ) (p : Projector) → (track_assistant o n p).view ≡ p.view
unfolding track_assistant
track_assistant-Evolves none n p = refl
track_assistant-Evolves (some turn) n p = refl

pub push_answer-Evolves :
    (item : AssistantItem) (p : Projector) → Evolves p.view (push_answer item p).view
unfolding push_answer
push_answer-Evolves item p = rw (track_assistant-Evolves item.turn_id _ _) (added stay _)

pub ensure_draft-Evolves :
    (o : Option ℕ) (e : SseEvent) (p : Projector) → Evolves p.view (ensure_draft o e p).1.view
unfolding ensure_draft
ensure_draft-Evolves none e p = push_answer-Evolves _ p
ensure_draft-Evolves (some n) e p = stay

pub write_chunk-Evolves :
    (delta : Option String) (e : SseEvent) (p : Projector)
    → Evolves p.view (write_chunk delta e p).view
unfolding write_chunk
write_chunk-Evolves none e p = stay
write_chunk-Evolves (some delta) e p =
    amended (ensure_draft-Evolves p.draft e p) _ _ (on_assistant-kind _)

pub finish_answer-Evolves :
    (o : Option ℕ) (e : SseEvent) (content : String) (p : Projector)
    → Evolves p.view (finish_answer o e content p).view
unfolding finish_answer
finish_answer-Evolves (some n) e content p = amended stay n _ (on_assistant-kind _)
finish_answer-Evolves none e content p =
    elim (Bool-cases (content == "" && not (is_some e.tool_calls))) [
      | inl h ↦ rw h stay
      | inr h ↦ rw h (push_answer-Evolves _ p)
    ]

pub record_call-Evolves :
    (o : Option ToolCall) (e : SseEvent) (p : Projector) → Evolves p.view (record_call o e p).view
unfolding record_call
record_call-Evolves none e p = stay
record_call-Evolves (some call) e p = added stay _

pub record_result-Evolves :
    (o : Option ℕ) (e : SseEvent) (p : Projector) → Evolves p.view (record_result o e p).view
unfolding record_result
record_result-Evolves none e p = stay
record_result-Evolves (some n) e p = amended stay n _ (on_tool-kind _)
