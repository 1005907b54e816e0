-- ===== src/Projection/State.antt =====
-- The variables of `createProjector`.
use mini_dsh.Common.{ℕ, String, Bool, false, Option, none, some, List, [], ◌∷◌, ◌++◌, or_else}
use mini_dsh.Common.Dict
use mini_dsh.Common.Dict.{Dict}
use mini_dsh.Projection.View
use mini_dsh.Projection.View.{View, empty_view}
use mini_dsh.Projection.Item.{AttachmentRef, ToolCall, RetryInput, ViewItem}
use mini_dsh.Projection.Event.{SseEvent}

pub record Projector : Type 0 where
  pub view : View ViewItem
  pub tool_items : Dict ℕ
  pub queued_users : Dict ℕ
  pub delegations : Dict ℕ
  pub approvals : Dict ToolCall
  pub draft : Option ℕ
  pub open_turn_id : Option String
  pub turn_assistants : Dict (List ℕ)
  pub turn_contexts : Dict ℕ
  pub open_compaction : Option ℕ
  pub accepted_inputs : Dict RetryInput
  pub turn_inputs : List RetryInput
  pub turn_legacy_inputs : List RetryInput
  pub turn_input_ids : List String
  pub turn_tools_ran : Bool

unfoldable pub create_projector : Projector
unfolding empty_view
create_projector = record {
  view = empty_view;
  tool_items = [];
  queued_users = [];
  delegations = [];
  approvals = [];
  draft = none;
  open_turn_id = none;
  turn_assistants = [];
  turn_contexts = [];
  open_compaction = none;
  accepted_inputs = [];
  turn_inputs = [];
  turn_legacy_inputs = [];
  turn_input_ids = [];
  turn_tools_ran = false;
}

-- `add`, and the position of the new item.
abbrev pub push : ViewItem → Projector → Projector
push item p = record p { view = View.add item p.view }

abbrev pub change : ℕ → (ViewItem → ViewItem) → Projector → Projector
change n f p = record p { view = View.amend n f p.view }

-- Attachments count only where there is one.
unfoldable pub some_attachments : Option (List AttachmentRef) → Option (List AttachmentRef)
some_attachments none = none
some_attachments (some []) = none
some_attachments (some (a ∷ rest)) = some (a ∷ rest)

unfoldable pub retry_input_of : SseEvent → RetryInput
unfolding some_attachments
retry_input_of e = record {
  content = or_else e.content "";
  attachments = some_attachments e.attachments;
}

-- An answer is registered under its open turn.
unfoldable pub track_assistant : Option String → ℕ → Projector → Projector
track_assistant none n p = p
track_assistant (some turn) n p = record p {
  turn_assistants =
      Dict.set turn (or_else (Dict.get turn p.turn_assistants) [] ++ n ∷ []) p.turn_assistants;
}
