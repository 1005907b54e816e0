-- ===== src/Approval/Lifecycle/Settled.antt =====
-- Which entries a re-evaluation settles.
use mini_dsh.Common.{
  String, ◌≡◌, refl, ◌∙◌, Bool, true, false, ◌||◌, ◌&&◌, Option, none, some, List, [], ◌∷◌, ◌==◌,
  if◌then◌else◌, is_some, arith, eq_iff, Option-cases, inl, inr,
}
use mini_dsh.Common.Dict
use mini_dsh.Common.Dict.{Dict, get-set, get-delete}
use mini_dsh.Approval.{ToolCall}
use mini_dsh.Approval.Lifecycle.{
  Settlement, ApprovalScope, ApprovalOptions, PendingEntry, Recording, no_session, appended,
  append_threw, Approvals, no_approvals, resolve, settle, decision_recorded, ask_user, new_entry,
  request_approval, request_recorded, settle_id, answer_settlement, Reevaluation, verdict,
  settle_verdict, reevaluate_entries, reevaluate, stop_settlement, expiry_settlement,
}
use mini_dsh.Approval.Lifecycle.Requests.{pre_execute-cases}
use mini_dsh.Approval.Lifecycle.History.{
  Action, calls, records_request, expires, stops, answers, answerer_fails, reevaluates,
  records_decision, act, history,
}
use mini_dsh.Approval.Lifecycle.Filing.{get-settle, Filed, set-Filed, settle-Filed}

-- The entry stays, if the change does not settle it.
unfoldable pub unsettled :
    ApprovalOptions → Reevaluation → Option PendingEntry → Option PendingEntry
unsettled options change none = none
unsettled options change (some e) = elim (verdict options change e) [
  | none ↦ some e
  | some st ↦ none
]

module _ (options : ApprovalOptions) (change : Reevaluation)
    (recording : PendingEntry → Recording) where
  -- Whether the list names the id with an entry that is settled.
  struck : String → Dict PendingEntry → Bool
  struck id [] = false
  struck id ((j, e) ∷ rest) =
      (e.approval_id == id && is_some (verdict options change e)) || struck id rest

  get-reevaluate_entries :
      (id : String) (entries : Dict PendingEntry) (s : Approvals)
      → Dict.get id (reevaluate_entries options change recording entries s).pending
        ≡ (if struck id entries then none else Dict.get id s.pending)
  unfolding reevaluate_entries settle_verdict struck
  get-reevaluate_entries id [] s = refl
  get-reevaluate_entries id ((j, e) ∷ rest) s = elim (Option-cases (verdict options change e)) [
    | inl v ↦
        let later = get-reevaluate_entries id rest s in
        rw (v, reevaluate_entries) (ground (arith, later, v))
    | inr (st, v) ↦
        let s' = settle e st (recording e) s in
        let later = get-reevaluate_entries id rest s' in
        let now = get-settle id e st (recording e) s in
        rw (v, reevaluate_entries) (ground (arith, later, now, v))
  ]

  reevaluate_entries-Filed :
      (entries : Dict PendingEntry) (s : Approvals)
      → Filed s.pending
      → Filed (reevaluate_entries options change recording entries s).pending
  unfolding reevaluate_entries settle_verdict
  reevaluate_entries-Filed [] s f = f
  reevaluate_entries-Filed ((j, e) ∷ rest) s f = elim (Option-cases (verdict options change e)) [
    | inl v ↦ rw (v, reevaluate_entries) (reevaluate_entries-Filed rest s f)
    | inr (st, v) ↦
        rw (v, reevaluate_entries)
          (reevaluate_entries-Filed rest (settle e st (recording e) s)
            (settle-Filed e st (recording e) s f))
  ]

  struck_absent :
      (id : String) (m : Dict PendingEntry) → Filed m → Dict.get id m ≡ none → struck id m ≡ false
  unfolding struck Dict.get
  struck_absent id [] f h = refl
  struck_absent id ((j, e) ∷ rest) f h =
      let later = struck_absent id rest f.2 in
      ground (arith, later, h, f.0, eq_iff j id, eq_iff e.approval_id id)

  struck_own :
      (id : String) (m : Dict PendingEntry)
      → Filed m
      → (if struck id m then none else Dict.get id m) ≡ unsettled options change (Dict.get id m)
  unfolding struck unsettled Dict.get
  struck_own id [] f = refl
  struck_own id ((j, e) ∷ rest) f =
      let later = struck_own id rest f.2 in
      let absent = struck_absent id rest f.2 in
      let own = f.0 in
      let gone = f.1 in
      ground (arith, later, absent, own, gone, eq_iff j id, eq_iff e.approval_id id)

module _ (options : ApprovalOptions) where
  settle_id-Filed :
      (j : String) (st : PendingEntry → Settlement) (r : Recording) (s : Approvals)
      → Filed s.pending
      → Filed (settle_id j st r s).pending
  unfolding settle_id
  settle_id-Filed j st r s f = elim (Option-cases (Dict.get j s.pending)) [
    | inl e ↦ rw (e, settle_id) f
    | inr (entry, e) ↦ rw (e, settle_id) (settle-Filed entry (st entry) r s f)
  ]

  ask_user-Filed :
      (entry : PendingEntry) (stopped : Bool) (r : Recording) (s : Approvals)
      → Filed s.pending
      → Filed (ask_user entry stopped r s).pending
  unfolding ask_user
  ask_user-Filed entry true r s f =
      settle-Filed entry (stop_settlement entry) r
        (record s { pending = Dict.set entry.approval_id entry s.pending })
        (set-Filed entry s.pending f)
  ask_user-Filed entry false r s f = set-Filed entry s.pending f

  request_approval-Filed :
      (j : String) (call : ToolCall) (scope : ApprovalScope) (r : Recording) (s : Approvals)
      → Filed s.pending
      → Filed (request_approval j call scope r s).pending
  unfolding request_approval
  request_approval-Filed j call scope no_session s f =
      ask_user-Filed (new_entry j call scope no_session) false no_session s f
  request_approval-Filed j call scope (append_threw message) s f = f
  request_approval-Filed j call scope appended s f = f

  request_recorded-Filed :
      (j : String) (failure : Option String) (stopped : Bool) (r : Recording) (s : Approvals)
      → Filed s.pending
      → Filed (request_recorded j failure stopped r s).pending
  unfolding request_recorded
  request_recorded-Filed j failure stopped r s f = elim (Option-cases (Dict.get j s.requesting)) [
    | inl e ↦ rw (e, request_recorded) f
    | inr (entry, e) ↦ elim (Option-cases failure) [
      | inr (message, g) ↦ rw (e, g, request_recorded) f
      | inl g ↦
          rw (e, g, request_recorded)
            (ask_user-Filed entry stopped r (record s { requesting = Dict.delete j s.requesting })
              f)
    ]
  ]

  decision_recorded_pending :
      (j : String) (failure : Option String) (s : Approvals)
      → (decision_recorded j failure s).pending ≡ s.pending
  unfolding decision_recorded resolve
  decision_recorded_pending j failure s = ground arith

  act-Filed : (a : Action) (s : Approvals) → Filed s.pending → Filed (act options a s).pending
  unfolding act reevaluate
  act-Filed (calls j call scope policy stopped r) s f =
      elim (pre_execute-cases options j call scope policy stopped r s) [
        | inl e ↦ rw e f
        | inr (canonical, e) ↦ rw e (request_approval-Filed j canonical scope _ s f)
      ]
  act-Filed (records_request j failure stopped r) s f =
      request_recorded-Filed j failure stopped r s f
  act-Filed (expires j r) s f = settle_id-Filed j expiry_settlement r s f
  act-Filed (stops j r) s f = settle_id-Filed j stop_settlement r s f
  act-Filed (answers j policy says_yes r) s f =
      settle_id-Filed j (answer_settlement options policy says_yes) r s f
  act-Filed (answerer_fails j message r) s f = settle_id-Filed j _ r s f
  act-Filed (reevaluates change recording) s f =
      reevaluate_entries-Filed options change recording s.pending s f
  act-Filed (records_decision j failure) s f = rw (decision_recorded_pending j failure s) f

  history-Filed :
      (actions : List Action) (s : Approvals)
      → Filed s.pending
      → Filed (history options actions s).pending
  unfolding history
  history-Filed [] s f = f
  history-Filed (a ∷ actions) s f = history-Filed actions (act options a s) (act-Filed a s f)

  no_approvals-Filed : Filed no_approvals.pending
  unfolding no_approvals
  no_approvals-Filed = tt

  pub get-reevaluate :
      (actions : List Action) (change : Reevaluation) (recording : PendingEntry → Recording)
      (id : String)
      → let s = history options actions no_approvals in
        Dict.get id (reevaluate options change recording s).pending
        ≡ unsettled options change (Dict.get id s.pending)
  unfolding reevaluate
  get-reevaluate actions change recording id =
      let s = history options actions no_approvals in
      let filed = history-Filed actions no_approvals no_approvals-Filed in
      get-reevaluate_entries options change recording id s.pending s
      ∙ struck_own options change recording id s.pending filed
