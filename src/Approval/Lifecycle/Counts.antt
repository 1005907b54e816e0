-- ===== src/Approval/Lifecycle/Counts.antt =====
-- What a settlement does to the counts of one id.
use mini_dsh.Common.{
  ◌+◌, ◌≤◌, String, ◌≡◌, refl, Bool, true, Option, ◌∷◌, ◌==◌, if◌then◌else◌, arith, eq_iff,
  Bool-cases, Option-cases, inl, inr,
}
use mini_dsh.Common.Dict
use mini_dsh.Common.Dict.{Dict, get-set, get-delete}
use mini_dsh.Common.Keys
use mini_dsh.Approval.{ToolCall}
use mini_dsh.Approval.Lifecycle.{
  Settlement, ApprovalScope, PendingEntry, Recording, no_session, appended, append_threw, Approvals,
  unrecorded_settlement, resolve, recording_of, record_decision, settle, decision_recorded,
  ask_user, new_entry, settle_id, stop_settlement,
}
use mini_dsh.Approval.Lifecycle.History.{settlements, allowances, load, accounted, IsSound}

pub record_decision-load :
    (id j : String) (st : Settlement) (r : Recording) (s : Approvals)
    → load id (record_decision j st r s) ≤ load id s + (if j == id then 1 else 0)
unfolding load record_decision resolve settlements
record_decision-load id j st no_session s = ground arith
record_decision-load id j st (append_threw message) s = ground arith
record_decision-load id j st appended s = ground (arith, get-set id j st s.deciding, eq_iff j id)

-- `settle`, once it has claimed the entry.
abbrev pub claimed : String → Approvals → Approvals
claimed j s = record s { pending = Dict.delete j s.pending; retired = j ∷ s.retired }

pub claimed-load :
    (id j : String) (s : Approvals)
    → Dict.has j s.pending ≡ true
    → load id (claimed j s) + (if j == id then 1 else 0) ≤ load id s
unfolding load
claimed-load id j s h = ground (arith, get-delete id j s.pending, eq_iff j id)

pub settle-load :
    (id : String) (entry : PendingEntry) (st : Settlement) (r : Recording) (s : Approvals)
    → load id (settle entry st r s) ≤ load id s
settle-load id entry st r s = elim (Bool-cases (Dict.has entry.approval_id s.pending)) [
  | inr e ↦ unfold settle in rw e (omega arith)
  | inl e ↦
      let j = entry.approval_id in
      let step =
        record_decision-load id j st (recording_of (entry.scope).session_id r) (claimed j s) in
      let less = claimed-load id j s e in unfold settle in rw e (omega (arith, step, less))
]

pub record_decision-IsSound :
    (id j : String) (st : Settlement) (r : Recording) (s : Approvals)
    → IsSound id s
    → IsSound id (record_decision j st r s)
unfolding record_decision resolve allowances accounted Keys.mem unrecorded_settlement
record_decision-IsSound id j st no_session s v = ground (arith, v.recorded)
record_decision-IsSound id j st appended s v = record { recorded = v.recorded }
record_decision-IsSound id j st (append_threw message) s v = ground (arith, v.recorded)

pub settle-IsSound :
    (id : String) (entry : PendingEntry) (st : Settlement) (r : Recording) (s : Approvals)
    → IsSound id s
    → IsSound id (settle entry st r s)
unfolding accounted
settle-IsSound id entry st r s v = elim (Bool-cases (Dict.has entry.approval_id s.pending)) [
  | inr e ↦ unfold settle in rw e v
  | inl e ↦
      unfold settle in
      rw e (
        record_decision-IsSound id entry.approval_id st _ (claimed entry.approval_id s)
          (record { recorded = v.recorded }))
]

pub decision_recorded-load :
    (id j : String) (failure : Option String) (s : Approvals)
    → load id (decision_recorded j failure s) ≤ load id s
unfolding load decision_recorded resolve settlements
decision_recorded-load id j failure s = ground (arith, get-delete id j s.deciding, eq_iff j id)

pub decision_recorded-IsSound :
    (id j : String) (failure : Option String) (s : Approvals)
    → IsSound id s
    → IsSound id (decision_recorded j failure s)
unfolding decision_recorded resolve allowances accounted Keys.mem unrecorded_settlement
decision_recorded-IsSound id j failure s v = ground (arith, v.recorded)

pub settle_id-load :
    (id j : String) (st : PendingEntry → Settlement) (r : Recording) (s : Approvals)
    → load id (settle_id j st r s) ≤ load id s
unfolding settle_id
settle_id-load id j st r s = elim (Option-cases (Dict.get j s.pending)) [
  | inl e ↦ rw (e, settle_id) (omega arith)
  | inr (entry, e) ↦ rw (e, settle_id) (settle-load id entry (st entry) r s)
]

pub settle_id-IsSound :
    (id j : String) (st : PendingEntry → Settlement) (r : Recording) (s : Approvals)
    → IsSound id s
    → IsSound id (settle_id j st r s)
unfolding settle_id
settle_id-IsSound id j st r s v = elim (Option-cases (Dict.get j s.pending)) [
  | inl e ↦ rw (e, settle_id) v
  | inr (entry, e) ↦ rw (e, settle_id) (settle-IsSound id entry (st entry) r s v)
]

pub ask_user-load :
    (id : String) (entry : PendingEntry) (stopped : Bool) (r : Recording) (s : Approvals)
    → load id (ask_user entry stopped r s) ≤ load id s + (if entry.approval_id == id then 1 else 0)
ask_user-load id entry stopped r s =
    let s' = record s { pending = Dict.set entry.approval_id entry s.pending } in
    let more : load id s' ≤ load id s + (if entry.approval_id == id then 1 else 0) =
      unfold load in
      ground (arith, get-set id entry.approval_id entry s.pending, eq_iff entry.approval_id id) in
    let less = settle-load id entry (stop_settlement entry) r s' in
    unfold ask_user in
    elim (Bool-cases stopped) [ inl e ↦ rw e (omega (arith, more, less)) | inr e ↦ rw e more ]

pub ask_user-IsSound :
    (id : String) (entry : PendingEntry) (stopped : Bool) (r : Recording) (s : Approvals)
    → IsSound id s
    → IsSound id (ask_user entry stopped r s)
unfolding ask_user accounted
ask_user-IsSound id entry stopped r s v =
    let s' = record s { pending = Dict.set entry.approval_id entry s.pending } in
    let v' : IsSound id s' = record { recorded = v.recorded } in
    elim (Bool-cases stopped) [
      | inl e ↦ rw e (settle-IsSound id entry (stop_settlement entry) r s' v')
      | inr e ↦ rw e v'
    ]

pub new_entry_id :
    (id : String) (call : ToolCall) (scope : ApprovalScope) (r : Recording)
    → (new_entry id call scope r).approval_id ≡ id
unfolding new_entry
new_entry_id id call scope no_session = refl
new_entry_id id call scope appended = refl
new_entry_id id call scope (append_threw message) = refl
