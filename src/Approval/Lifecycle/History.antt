-- ===== src/Approval/Lifecycle/History.antt =====
-- Histories of approvals, and what is counted of them.
use mini_dsh.Common.{
  template, ℕ, ◌+◌, ◌<◌, String, ◌≡◌, Bool, true, false, ◌&&◌, ◌||◌, Option, some, List, [], ◌∷◌,
  ◌==◌, if◌then◌else◌,
}
use mini_dsh.Common.Dict
use mini_dsh.Common.Dict.{Dict, get-set, get-delete}
use mini_dsh.Common.Keys
use mini_dsh.Approval.{ToolCall, ApprovalMode}
use mini_dsh.Approval.Lifecycle.{
  allowed, denied, Settlement, ApprovalScope, ApprovalOptions, PendingEntry, Recording, Approvals,
  decision_recorded, request_recorded, settle_id, pre_execute, answer_settlement, Reevaluation,
  reevaluate, stop_settlement, expiry_settlement,
}

pub data Action : Type 0 where
  calls : String → ToolCall → ApprovalScope → Dict ApprovalMode → Bool → Recording → Action
  records_request : String → Option String → Bool → Recording → Action
  expires : String → Recording → Action
  stops : String → Recording → Action
  answers : String → Dict ApprovalMode → Bool → Recording → Action
  answerer_fails : String → String → Recording → Action
  reevaluates : Reevaluation → (PendingEntry → Recording) → Action
  records_decision : String → Option String → Action

module _ (options : ApprovalOptions) where
  unfoldable pub act : Action → Approvals → Approvals
  unfolding pre_execute settle_id stop_settlement expiry_settlement answer_settlement
  act (calls id call scope policy stopped r) s =
      (pre_execute options id call scope policy stopped r s).1
  act (records_request id failure stopped r) s = request_recorded id failure stopped r s
  act (expires id r) s = settle_id id expiry_settlement r s
  act (stops id r) s = settle_id id stop_settlement r s
  act (answers id policy says_yes r) s =
      settle_id id (answer_settlement options policy says_yes) r s
  act (answerer_fails id message r) s =
      settle_id id
        (λ entry. record {
          decision = denied;
          reason = some (template ("approval answerer failed: " ∷ message ∷ []));
        })
        r s
  act (reevaluates change recording) s = reevaluate options change recording s
  act (records_decision id failure) s = decision_recorded id failure s

  unfoldable pub history : List Action → Approvals → Approvals
  history [] s = s
  history (a ∷ actions) s = history actions (act a s)

-- How often the waiter of an approval was resolved, and how often with an `allow`.
unfoldable pub settlements : String → List (String × Settlement) → ℕ
settlements id [] = 0
settlements id ((j, st) ∷ rest) = (if j == id then 1 else 0) + settlements id rest

abbrev pub is_allowed : Settlement → Bool
is_allowed st = elim st.decision [ allowed ↦ true | _ ↦ false ]

unfoldable pub allowances : String → List (String × Settlement) → ℕ
allowances id [] = 0
allowances id ((j, st) ∷ rest) = (if j == id && is_allowed st then 1 else 0) + allowances id rest

unfoldable pub arrivals : String → List Action → ℕ
arrivals id [] = 0
arrivals id (calls j call scope policy stopped r ∷ actions) =
    (if j == id then 1 else 0) + arrivals id actions
arrivals id (_ ∷ actions) = arrivals id actions

abbrev pub held : {V : Type 0} → String → Dict V → ℕ
held id m = if Dict.has id m then 1 else 0

-- What is still on its way for an id, and what has come of it.
unfoldable pub load : String → Approvals → ℕ
unfolding settlements
load id s = held id s.requesting + held id s.pending + held id s.deciding + settlements id s.settled

-- An `allow` has reached the disk, or there was no session to record it in.
unfoldable pub accounted : String → Approvals → Bool
accounted id s = Keys.mem id s.durable || Keys.mem id s.unrecorded

pub record IsSound (id : String) (s : Approvals) : Type 0 where
  pub recorded : 0 < allowances id s.settled → accounted id s ≡ true
