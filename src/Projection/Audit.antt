-- ===== src/Projection/Audit.antt =====
-- The cases `approval/request`, `approval/decision` and `hook/run`; web/lib/format.ts `toolTarget`.
use mini_dsh.Common.{
  ℕ, String, Option, none, some, List, [], ◌∷◌, ◌==◌, if◌then◌else◌, or_else, template,
}
use mini_dsh.Common.Dict
use mini_dsh.Projection.Item.{
  ToolCall, ArgValue, text, other, AuditIcon, block, fail, allow, deny, expired, audit, ViewItem,
}
use mini_dsh.Projection.Event.{SseEvent}
use mini_dsh.Projection.State.{Projector, push}
use mini_dsh.Common.Text.{strip_prefix}

-- The first argument that is a text and not empty.
unfoldable pub tool_target : List (String × ArgValue) → String
tool_target [] = ""
tool_target ((key, text s) ∷ args) = if s == "" then tool_target args else s
tool_target ((key, other) ∷ args) = tool_target args

unfoldable pub request_approval : Option String → Option ToolCall → Projector → Projector
request_approval none call p = p
request_approval (some id) none p = p
request_approval (some id) (some call) p = record p { approvals = Dict.set id call p.approvals }

unfoldable pub on_approval_request : SseEvent → Projector → Projector
unfolding request_approval
on_approval_request e p = request_approval e.approval_id e.call p

unfoldable pub approved_call : Option String → Projector → Option ToolCall
approved_call none p = none
approved_call (some id) p = Dict.get id p.approvals

unfoldable pub call_name : Option ToolCall → String
call_name none = "unknown tool"
call_name (some call) = call.name

unfoldable pub call_target : Option ToolCall → String
call_target none = ""
call_target (some call) = tool_target call.args

unfoldable pub audit_row : SseEvent → AuditIcon → String → Option ℕ → ViewItem
audit_row e icon label duration =
    audit (record { ts = e.timestamp; icon = icon; label = label; duration_ms = duration })

unfoldable pub decided : String → Option ToolCall → String
decided verb call =
    let target = call_target call in
    template (
      verb
      ∷ " · "
      ∷ call_name call
      ∷ (if target == "" then "" else template (" · " ∷ target ∷ []))
      ∷ [])

-- `DECISION_LABELS`.
unfoldable pub decision_label : String → Option String
decision_label decision =
    if decision == "expired"
    then some "Expired · no decision recorded"
    else if decision == "cancelled"
    then some "Cancelled · no decision recorded"
    else if decision == "invalidated"
    then some "Invalidated · no decision recorded"
    else none

unfoldable pub undecided : Option String → SseEvent → Projector → Projector
undecided none e p = p
undecided (some label) e p = push (audit_row e expired label none) p

unfoldable pub on_approval_decision : SseEvent → Projector → Projector
on_approval_decision e p =
    let decision = or_else e.decision "" in
    let call = approved_call e.approval_id p in
    if decision == "allow"
    then push (audit_row e allow (decided "Allowed" call) none) p
    else if decision == "deny"
    then push (audit_row e deny (decided "Denied" call) none) p
    else undecided (decision_label decision) e p

unfoldable pub hook_name : SseEvent → String
hook_name e = template (or_else e.hook "hook" ∷ " · " ∷ or_else e.matcher "" ∷ [])

unfoldable pub hook_failed : Option String → SseEvent → Projector → Projector
hook_failed none e p = p
hook_failed (some why) e p =
    push
      (audit_row e fail (template ("hook failed · " ∷ hook_name e ∷ " (" ∷ why ∷ ")" ∷ []))
        e.duration_ms)
      p

unfoldable pub on_hook_run : SseEvent → Projector → Projector
on_hook_run e p =
    let decision = or_else e.decision "" in
    if decision == "block"
    then push (audit_row e block (template ("hook blocked · " ∷ hook_name e ∷ [])) e.duration_ms) p
    else hook_failed (strip_prefix "failure:" decision) e p
