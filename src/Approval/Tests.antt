-- ===== src/Approval/Tests.antt =====
-- One approval, from the call to its answer, with a change of the policy in between.
use mini_dsh.Common.{◌↔◌, ◌⊎◌, ◌≤◌, ◌≡◌, refl, true, false, none, some, List, [], ◌∷◌, arith}
use mini_dsh.Common.Dict
use mini_dsh.Common.Dict.{Dict}
use mini_dsh.Approval.{ToolCall, canonical_call, canonical_tool_name, canonical_args, ask, deny}
use mini_dsh.Approval.Names.{canonical_call_idem}
use mini_dsh.Approval.Lifecycle.{
  ApprovalScope, ApprovalOptions, appended, Reevaluation, PendingEntry, no_approvals, reevaluate,
  settle, record_decision, resolve, recording_of, decision_recorded, pre_execute, immediate,
  call_mode, request_approval, request_recorded, ask_user, new_entry, settle_id, answer_settlement,
}
use mini_dsh.Approval.Lifecycle.History.{
  Action, calls, records_request, answers, records_decision, expires, act, history, settlements,
  allowances, arrivals, accounted,
}
use mini_dsh.Approval.Lifecycle.Settlements.{settle_once, allow_recorded}
use mini_dsh.Approval.Lifecycle.Remaining.{reevaluate_lem, Stays}

abbrev edit : ToolCall
edit = record {
  id = "c1";
  name = "edit";
  args = ("file_path", 1) ∷ ("old_string", 2) ∷ ("new", 3) ∷ [];
}

edit_canonical :
    canonical_call edit
    ≡ some (record { id = "c1"; name = "Edit"; args = ("path", 1) ∷ ("old", 2) ∷ ("new", 3) ∷ [] })
unfolding canonical_call canonical_tool_name canonical_args Dict.set Dict.get
edit_canonical = refl

abbrev edited : ToolCall
edited = record { id = "c1"; name = "Edit"; args = ("path", 1) ∷ ("old", 2) ∷ ("new", 3) ∷ [] }

no_canonical : canonical_call (record edit { name = "Constructor" }) ≡ none
unfolding canonical_call canonical_tool_name
no_canonical = refl

canonical_call_idem_example : canonical_call edited ≡ some edited
canonical_call_idem_example = canonical_call_idem edit edited edit_canonical

abbrev options : ApprovalOptions
options = record { default_mode = ask; force_ask = λ call scope. false; asks_user = true }

abbrev scope : ApprovalScope
scope = record {
  session_id = some "s1";
  root_session_id = none;
  turn_id = none;
  execution_id = none;
  workspace_id = some "w1";
}

abbrev asked : List Action
asked = calls "a1" edit scope [] false appended ∷ records_request "a1" none false appended ∷ []

abbrev answered : List Action
answered =
    calls "a1" edit scope [] false appended
    ∷ records_request "a1" none false appended
    ∷ answers "a1" [] true appended
    ∷ expires "a1" appended
    ∷ records_decision "a1" none
    ∷ []

settle_once_example :
    settlements "a1" (history options answered no_approvals).settled ≤ arrivals "a1" answered
settle_once_example = settle_once options answered "a1"

answered_allows : allowances "a1" (history options answered no_approvals).settled ≡ 1
unfolding history act pre_execute immediate call_mode request_approval request_recorded ask_user
    new_entry settle_id answer_settlement settle record_decision resolve recording_of
    decision_recorded canonical_call canonical_tool_name canonical_args allowances no_approvals
    Dict.set Dict.get Dict.delete
answered_allows = refl

allow_recorded_example : accounted "a1" (history options answered no_approvals) ≡ true
allow_recorded_example = allow_recorded options answered "a1" (omega (arith, answered_allows))

abbrev stricter : Reevaluation
stricter = record {
  workspace_id = some "w1";
  root_session_id = none;
  policy = ("Edit", deny) ∷ [];
  tool_exposure = none;
}

-- What `asked` leaves pending.
abbrev edit_pending : PendingEntry
edit_pending = record { approval_id = "a1"; call = edited; mode = ask; scope = scope }

asked_pending : Dict.get "a1" (history options asked no_approvals).pending ≡ some edit_pending
unfolding history act pre_execute immediate call_mode request_approval request_recorded ask_user
    new_entry recording_of canonical_call canonical_tool_name canonical_args no_approvals Dict.set
    Dict.get Dict.delete
asked_pending = refl

reevaluate_lem_example :
    let s' = reevaluate options stricter (λ e. appended) (history options asked no_approvals) in
    ((Dict.get "a1" s'.pending ≡ some edit_pending) ↔ Stays options stricter edit_pending)
    × ((Dict.get "a1" s'.pending ≡ some edit_pending) ⊎ (Dict.get "a1" s'.pending ≡ none))
reevaluate_lem_example =
    reevaluate_lem options asked stricter (λ e. appended) "a1" edit_pending asked_pending
