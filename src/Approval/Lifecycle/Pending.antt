-- ===== src/Approval/Lifecycle/Pending.antt =====
-- harness/approval/policy.ts: the open approvals, how they settle, and what a call is answered at once.
use mini_dsh.Common.{String, Bool, not, Option, none, some, List, [], ◌∷◌, if◌then◌else◌, template}
use mini_dsh.Common.Dict
use mini_dsh.Common.Dict.{Dict}
use mini_dsh.Approval.{ToolCall, ApprovalMode, allow, ask, deny, mode_for, final_mode}

pub data Decision : Type 0 where
  allowed denied expired cancelled : Decision

pub record Settlement : Type 0 where
  pub decision : Decision
  pub reason : Option String

pub record ApprovalScope : Type 0 where
  pub session_id : Option String
  pub root_session_id : Option String
  pub turn_id : Option String
  pub execution_id : Option String
  pub workspace_id : Option String

-- `forceAsk` and whether there is an answerer.
pub record ApprovalOptions : Type 0 where
  pub default_mode : ApprovalMode
  pub force_ask : ToolCall → ApprovalScope → Bool
  pub asks_user : Bool

pub record PendingEntry : Type 0 where
  pub approval_id : String
  pub call : ToolCall
  pub mode : ApprovalMode
  pub scope : ApprovalScope

-- What happens when an event is appended for a session: the store has no such session, the append
-- succeeds, or it throws. Whether the event is durable is known later.
pub data Recording : Type 0 where
  no_session appended : Recording
  append_threw : String → Recording

pub data Logged : Type 0 where
  request : String → Logged
  decision : String → Decision → Logged

-- `requesting` are the calls whose request is being recorded, `deciding` the settled approvals whose
-- decision is being recorded, `settled` what their waiters got, newest first. `durable` and
-- `unrecorded` tell of every settled approval whether its decision has reached the disk, or had no
-- session to be recorded in.
pub record Approvals : Type 0 where
  pub requesting : Dict PendingEntry
  pub pending : Dict PendingEntry
  pub deciding : Dict Settlement
  pub settled : List (String × Settlement)
  pub retired : List String
  pub log : List Logged
  pub durable : List String
  pub unrecorded : List String

unfoldable pub no_approvals : Approvals
no_approvals = record {
  requesting = [];
  pending = [];
  deciding = [];
  settled = [];
  retired = [];
  log = [];
  durable = [];
  unrecorded = [];
}

-- `entry.resolve` after a record that failed: an `allow` that is not recorded denies.
unfoldable pub unrecorded_settlement : Settlement → String → Settlement
unrecorded_settlement st message = elim st.decision [
  | allowed ↦ record {
    decision = denied;
    reason = some (template ("approval decision could not be recorded: " ∷ message ∷ []));
  }
  | _ ↦ st
]

unfoldable pub resolve : String → Settlement → Approvals → Approvals
resolve id st s = record s { settled = (id, st) ∷ s.settled }

-- `recordingSession`: an entry without a session is not recorded.
unfoldable pub recording_of : Option String → Recording → Recording
recording_of none r = no_session
recording_of (some session) r = r

unfoldable pub record_decision : String → Settlement → Recording → Approvals → Approvals
unfolding resolve unrecorded_settlement
record_decision id st no_session s = resolve id st (record s { unrecorded = id ∷ s.unrecorded })
record_decision id st (append_threw message) s = resolve id (unrecorded_settlement st message) s
record_decision id st appended s = record s {
  log = decision id st.decision ∷ s.log;
  deciding = Dict.set id st s.deciding;
}

unfoldable pub settle : PendingEntry → Settlement → Recording → Approvals → Approvals
unfolding record_decision recording_of
settle entry st r s =
    if Dict.has entry.approval_id s.pending
    then record_decision entry.approval_id st (recording_of (entry.scope).session_id r) (record s {
      pending = Dict.delete entry.approval_id s.pending;
      retired = entry.approval_id ∷ s.retired;
    })
    else s

-- `session.durable()` of a decision settles: the error's message, if it fails.
unfoldable pub decision_recorded : String → Option String → Approvals → Approvals
unfolding resolve unrecorded_settlement
decision_recorded id failure s = elim (Dict.get id s.deciding) [
  | none ↦ s
  | some st ↦
      let s' = record s { deciding = Dict.delete id s.deciding } in
      elim failure [
        | none ↦ resolve id st (record s' { durable = id ∷ s'.durable })
        | some message ↦ resolve id (unrecorded_settlement st message) s'
      ]
]

pub data PreExecuteDecision : Type 0 where
  proceed : PreExecuteDecision
  refused : String → PreExecuteDecision

unfoldable pub decision_name : Decision → String
decision_name allowed = "allow"
decision_name denied = "deny"
decision_name expired = "expired"
decision_name cancelled = "cancelled"

-- What the listener returns once its waiter resolves.
unfoldable pub answer_of : Settlement → PreExecuteDecision
unfolding decision_name
answer_of st = elim st.decision [
  | allowed ↦ proceed
  | _ ↦ elim st.reason [
    | some reason ↦ refused reason
    | none ↦ refused (template ("denied: " ∷ decision_name st.decision ∷ []))
  ]
]

module _ (options : ApprovalOptions) where
  unfoldable pub call_mode : Dict ApprovalMode → ToolCall → ApprovalScope → ApprovalMode
  unfolding mode_for final_mode
  call_mode policy call scope =
      final_mode (mode_for policy call.name options.default_mode) (options.force_ask call scope)

  -- The answer of the listener before it asks, if it has one.
  unfoldable pub immediate :
      Dict ApprovalMode → ToolCall → ApprovalScope → Bool → Option PreExecuteDecision
  unfolding call_mode
  immediate policy call scope stopped = elim (call_mode policy call scope) [
    | allow ↦ some proceed
    | deny ↦ some (refused (template ("policy denies '" ∷ call.name ∷ "'" ∷ [])))
    | ask ↦
        if stopped
        then some (
            refused (
              template
                ("cancelled: stop requested while awaiting approval for '" ∷ call.name ∷ "'" ∷ [])))
        else if not options.asks_user
        then some (
            refused (
              template (
                "approval required for '" ∷ call.name ∷ "' but no askUser answerer is configured"
                ∷ [])))
        else none
  ]
