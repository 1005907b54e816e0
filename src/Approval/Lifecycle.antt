-- ===== src/Approval/Lifecycle.antt =====
-- harness/approval/policy.ts: the approvals that are open, from the call to its answer. The pieces
-- between two awaits run without interruption: a history is a list of actions, each one such piece. The
-- ids, what the session store answers and the live policy come with the action.
mod Pending
pub mod History
pub mod Counts
pub mod Requests
pub mod Settlements
mod Filing
mod Settled
pub mod Remaining
unfoldable pub use Pending.*
use mini_dsh.Common.{
  ℕ, String, Bool, true, false, not, ◌&&◌, ◌||◌, Option, none, some, List, [], ◌∷◌, map, ◌==◌,
  if◌then◌else◌, is_some, first_some, template,
}
use mini_dsh.Common.Dict
use mini_dsh.Common.Dict.{Dict}
use mini_dsh.Common.Keys
use mini_dsh.Approval.{
  ToolCall, canonical_call, ApprovalMode, allow, ask, deny, canonical_policy, mode_for, final_mode,
}

unfoldable pub stop_settlement : PendingEntry → Settlement
stop_settlement entry = record {
  decision = cancelled;
  reason = some (
      template
        ("cancelled: stop requested while awaiting approval for '" ∷ (entry.call).name ∷ "'" ∷ []));
}

unfoldable pub expiry_settlement : PendingEntry → Settlement
expiry_settlement entry = record {
  decision = expired;
  reason = some (template ("approval for '" ∷ (entry.call).name ∷ "' expired undecided" ∷ []));
}

unfoldable pub policy_denial : PendingEntry → Settlement
policy_denial entry = record {
  decision = denied;
  reason = some (template ("policy now denies '" ∷ (entry.call).name ∷ "'" ∷ []));
}

-- The entry waits for its answer; a stop that is already there settles it at once.
unfoldable pub ask_user : PendingEntry → Bool → Recording → Approvals → Approvals
unfolding settle stop_settlement
ask_user entry stopped r s =
    let s' = record s { pending = Dict.set entry.approval_id entry s.pending } in
    if stopped then settle entry (stop_settlement entry) r s' else s'

-- What the listener knows of a call when it asks; without a session to record in, the entry has
-- neither a session nor a workspace.
unfoldable pub new_entry : String → ToolCall → ApprovalScope → Recording → PendingEntry
new_entry id call scope no_session = record {
  approval_id = id;
  call = call;
  mode = ask;
  scope = record scope { session_id = none; workspace_id = none };
}
new_entry id call scope _ = record { approval_id = id; call = call; mode = ask; scope = scope }

unfoldable pub request_approval :
    String → ToolCall → ApprovalScope → Recording → Approvals → Approvals
unfolding new_entry ask_user
request_approval id call scope no_session s =
    ask_user (new_entry id call scope no_session) false no_session s
request_approval id call scope (append_threw message) s = s
request_approval id call scope appended s = record s {
  log = request id ∷ s.log;
  requesting = Dict.set id (new_entry id call scope appended) s.requesting;
}

-- `session.durable()` of a request settles; a request that is not recorded is refused.
unfoldable pub request_recorded : String → Option String → Bool → Recording → Approvals → Approvals
unfolding ask_user
request_recorded id failure stopped r s = elim (Dict.get id s.requesting) [
  | none ↦ s
  | some entry ↦
      let s' = record s { requesting = Dict.delete id s.requesting } in
      elim failure [ some message ↦ s' | none ↦ ask_user entry stopped r s' ]
]

-- A settlement of the entry that the id names, if it is still pending.
unfoldable pub settle_id : String → (PendingEntry → Settlement) → Recording → Approvals → Approvals
unfolding settle
settle_id id st r s = elim (Dict.get id s.pending) [
  | none ↦ s
  | some entry ↦ settle entry (st entry) r s
]

module _ (options : ApprovalOptions) where
  -- The listener, up to its first wait. Where the append of the request throws, or the
  -- call has no canonical form, so does the listener, and nothing is pending.
  unfoldable pub pre_execute :
      String
      → ToolCall
      → ApprovalScope
      → Dict ApprovalMode
      → Bool
      → Recording
      → Approvals
      → Option PreExecuteDecision × Approvals
  unfolding immediate canonical_call canonical_policy request_approval recording_of
  pre_execute id raw scope policy stopped r s = elim (canonical_call raw) [
    | none ↦ (none, s)
    | some call ↦
        let answer = immediate options (canonical_policy policy) call scope stopped in
        elim answer [
          | some d ↦ (some d, s)
          | none ↦ (none, request_approval id call scope (recording_of scope.session_id r) s)
        ]
  ]

  -- What the user's answer settles the entry as, under the policy of that moment.
  unfoldable pub answer_settlement : Dict ApprovalMode → Bool → PendingEntry → Settlement
  unfolding mode_for policy_denial canonical_policy
  answer_settlement policy says_yes entry =
      elim (mode_for (canonical_policy policy) (entry.call).name options.default_mode) [
        | deny ↦ policy_denial entry
        | _ ↦ if says_yes then record { decision = allowed; reason = none } else record {
          decision = denied;
          reason = some (template ("the user denied '" ∷ (entry.call).name ∷ "'" ∷ []));
        }
      ]

-- `policy` is the map of the call, or the live canonical one.
pub record Reevaluation : Type 0 where
  pub workspace_id : Option String
  pub root_session_id : Option String
  pub policy : Dict ApprovalMode
  pub tool_exposure : Option (List String)

unfoldable pub same_as : Option String → Option String → Bool
same_as none actual = true
same_as (some expected) none = false
same_as (some expected) (some actual) = actual == expected

unfoldable pub in_scope : Reevaluation → PendingEntry → Bool
unfolding same_as
in_scope change entry =
    same_as change.workspace_id (entry.scope).workspace_id
    && same_as change.root_session_id
        (first_some (entry.scope).root_session_id (entry.scope).session_id)

unfoldable pub exposed : Option (List String) → String → Bool
exposed none name = true
exposed (some names) name = Keys.mem name names

module _ (options : ApprovalOptions) where
  -- How a re-evaluation settles an entry, if it does.
  unfoldable pub verdict : Reevaluation → PendingEntry → Option Settlement
  unfolding in_scope exposed call_mode policy_denial
  verdict change entry =
      if not (in_scope change entry)
      then none
      else if not (exposed change.tool_exposure (entry.call).name)
      then some (record {
        decision = cancelled;
        reason =
            some (template ("mode change: '" ∷ (entry.call).name ∷ "' is no longer exposed" ∷ []));
      })
      else elim (call_mode options change.policy entry.call entry.scope) [
        | deny ↦ some (policy_denial entry)
        | allow ↦ some (record { decision = allowed; reason = none })
        | ask ↦ none
      ]

  unfoldable pub settle_verdict :
      Option Settlement → PendingEntry → Recording → Approvals → Approvals
  unfolding settle
  settle_verdict none entry r s = s
  settle_verdict (some st) entry r s = settle entry st r s

  unfoldable pub reevaluate_entries :
      Reevaluation → (PendingEntry → Recording) → Dict PendingEntry → Approvals → Approvals
  unfolding settle_verdict verdict
  reevaluate_entries change recording [] s = s
  reevaluate_entries change recording ((id, entry) ∷ rest) s =
      reevaluate_entries change recording rest
        (settle_verdict (verdict change entry) entry (recording entry) s)

  unfoldable pub reevaluate : Reevaluation → (PendingEntry → Recording) → Approvals → Approvals
  unfolding reevaluate_entries
  reevaluate change recording s = reevaluate_entries change recording s.pending s
