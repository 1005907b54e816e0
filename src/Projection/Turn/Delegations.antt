-- ===== src/Projection/Turn/Delegations.antt =====
-- web/lib/project.ts: the start of a turn and the items of delegated children.
use mini_dsh.Common.{
  ℕ, String, false, Option, none, some, [], ◌==◌, if◌then◌else◌, or_else, length, overwrite,
  first_some,
}
use mini_dsh.Common.Dict
use mini_dsh.Common.Dict.{Dict}
use mini_dsh.Projection.Item.{DelegationItem, DelegationStatus, delegation, on_delegation}
use mini_dsh.Projection.Event.{SseEvent, given}
use mini_dsh.Projection.State.{Projector, push, change}

unfoldable pub on_turn_start : SseEvent → Projector → Projector
on_turn_start e p = record p {
  open_turn_id = overwrite p.open_turn_id (given e.turn_id);
  turn_inputs = [];
  turn_legacy_inputs = [];
  turn_input_ids = [];
  turn_tools_ran = false;
}

unfoldable pub spawn : SseEvent → String → Projector → ℕ × Projector
spawn e child p =
    let n = length (p.view).items in
    (
      n,
      push
          (delegation (record {
            child_session_id = child;
            definition = or_else e.definition "";
            brief = or_else (first_some e.brief e.objective) "";
            ts = e.timestamp;
            status = DelegationStatus.running;
          }))
          (record p { delegations = Dict.set child n p.delegations }),
    )

unfoldable pub spawn_child : Option String → SseEvent → Projector → Projector
spawn_child none e p = p
spawn_child (some child) e p = (spawn e child p).1

unfoldable pub on_child_spawn : SseEvent → Projector → Projector
unfolding spawn_child
on_child_spawn e p = spawn_child e.child_session_id e p

unfoldable pub find_child : Option ℕ → String → SseEvent → Projector → ℕ × Projector
find_child (some n) child e p = (n, p)
find_child none child e p = spawn e child p

unfoldable pub delegation_status : Option String → Option DelegationStatus
delegation_status none = none
delegation_status (some s) =
    if s == "completed"
    then some DelegationStatus.completed
    else if s == "failed"
    then some DelegationStatus.failed
    else if s == "cancelled"
    then some DelegationStatus.cancelled
    else if s == "interrupted"
    then some DelegationStatus.interrupted
    else none

abbrev pub set_status : Option DelegationStatus → DelegationItem → DelegationItem
set_status none i = i
set_status (some s) i = record i { status = s }

unfoldable pub settle_child : Option String → SseEvent → Projector → Projector
settle_child none e p = p
settle_child (some child) e p =
    let (n, p') = find_child (Dict.get child p.delegations) child e p in
    change n (on_delegation (set_status (delegation_status e.child_status))) p'

unfoldable pub on_child_result : SseEvent → Projector → Projector
unfolding settle_child
on_child_result e p = settle_child e.child_session_id e p
