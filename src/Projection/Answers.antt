-- ===== src/Projection/Answers.antt =====
-- The cases `assistant/chunk` and `assistant/message`.
use mini_dsh.Common.{
  ℕ, String, Bool, true, false, Option, none, some, List, [], ◌∷◌, ◌++◌, ◌==◌, if◌then◌else◌,
  or_else, length, template, is_some, ◌&&◌, not, overwrite,
}
use mini_dsh.Projection.Item.{AssistantItem, assistant, on_assistant, Controls, ToolCall}
use mini_dsh.Projection.Event.{SseEvent}
use mini_dsh.Projection.State.{Projector, push, change, track_assistant}

unfoldable pub turn_open_of : Option String → Option Bool
turn_open_of none = none
turn_open_of (some turn) = some true

unfoldable pub new_answer :
    SseEvent
    → String
    → (live : Bool) → Option (List ToolCall)
    → Option Controls
    → Projector
    → AssistantItem
unfolding turn_open_of
new_answer e content live calls controls p = record {
  content = content;
  live = live;
  ts = e.timestamp;
  thinking = [];
  thinking_live = false;
  tool_calls = calls;
  controls = controls;
  turn_id = p.open_turn_id;
  turn_open = turn_open_of p.open_turn_id;
}

-- `add` and `trackAssistant`.
unfoldable pub push_answer : AssistantItem → Projector → Projector
push_answer item p = track_assistant item.turn_id (length (p.view).items) (push (assistant item) p)

-- The open draft, made anew where there is none.
unfoldable pub ensure_draft : Option ℕ → SseEvent → Projector → ℕ × Projector
ensure_draft (some n) e p = (n, p)
ensure_draft none e p =
    let n = length (p.view).items in
    (n, record (push_answer (new_answer e "" true none none p) p) { draft = some n })

abbrev pub extend_draft : Bool → String → AssistantItem → AssistantItem
extend_draft true delta i = record i { thinking = i.thinking ++ delta ∷ []; thinking_live = true }
extend_draft false delta i = record i {
  content = template (i.content ∷ delta ∷ []);
  thinking_live = false;
}

unfoldable pub write_chunk : Option String → SseEvent → Projector → Projector
write_chunk none e p = p
write_chunk (some delta) e p =
    let (n, p') = ensure_draft p.draft e p in
    change n (on_assistant (extend_draft e.thinking delta)) p'

unfoldable pub on_assistant_chunk : SseEvent → Projector → Projector
unfolding write_chunk
on_assistant_chunk e p = write_chunk e.delta e p

-- The recorded answer replaces the draft's fields that it carries.
abbrev pub complete_draft : SseEvent → String → AssistantItem → AssistantItem
complete_draft e content i = record i {
  content = if content == "" then i.content else content;
  live = false;
  thinking_live = false;
  tool_calls = overwrite i.tool_calls e.tool_calls;
  controls = overwrite i.controls e.controls;
}

unfoldable pub finish_answer : Option ℕ → SseEvent → String → Projector → Projector
finish_answer (some n) e content p = record (change n (on_assistant (complete_draft e content)) p) {
  draft = none;
}
finish_answer none e content p =
    if content == "" && not (is_some e.tool_calls)
    then p
    else push_answer (new_answer e content false e.tool_calls e.controls p) p

unfoldable pub on_assistant_message : SseEvent → Projector → Projector
unfolding finish_answer
on_assistant_message e p = finish_answer p.draft e (or_else e.content "") p
