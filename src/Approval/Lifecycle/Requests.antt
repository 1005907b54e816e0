-- ===== src/Approval/Lifecycle/Requests.antt =====
-- What a request and a re-evaluation do to the counts of one id.
use mini_dsh.Common.{
  ◌+◌, ◌≤◌, String, ◌≡◌, refl, Bool, true, false, Option, some, [], ◌∷◌, ◌==◌, if◌then◌else◌, arith,
  eq_iff, Option-cases, inl, inr, ap, sym, ◌∙◌, ◌⊎◌,
}
use mini_dsh.Common.Dict
use mini_dsh.Common.Dict.{Dict, get-set, get-delete}
use mini_dsh.Approval.{ToolCall, canonical_call, canonical_policy, ApprovalMode}
use mini_dsh.Approval.Lifecycle.{
  Settlement, ApprovalScope, ApprovalOptions, PendingEntry, Recording, no_session, appended,
  append_threw, Approvals, resolve, record_decision, settle, decision_recorded, ask_user, new_entry,
  request_approval, request_recorded, settle_id, Reevaluation, verdict, settle_verdict,
  reevaluate_entries, stop_settlement, pre_execute, immediate, recording_of,
}
use mini_dsh.Approval.Lifecycle.History.{load, accounted, IsSound}
use mini_dsh.Approval.Lifecycle.Counts.{
  settle-load, settle-IsSound, ask_user-load, ask_user-IsSound, new_entry_id,
}

pub request_approval-load :
    (id j : String) (call : ToolCall) (scope : ApprovalScope) (r : Recording) (s : Approvals)
    → load id (request_approval j call scope r s) ≤ load id s + (if j == id then 1 else 0)
unfolding request_approval
request_approval-load id j call scope no_session s =
    let h = ask_user-load id (new_entry j call scope no_session) false no_session s in
    rw (sym (new_entry_id j call scope no_session)) h
request_approval-load id j call scope (append_threw message) s = omega arith
request_approval-load id j call scope appended s =
    unfold load in
    ground (arith, get-set id j (new_entry j call scope appended) s.requesting, eq_iff j id)

pub request_approval-IsSound :
    (id j : String) (call : ToolCall) (scope : ApprovalScope) (r : Recording) (s : Approvals)
    → IsSound id s
    → IsSound id (request_approval j call scope r s)
unfolding request_approval accounted
request_approval-IsSound id j call scope no_session s v =
    ask_user-IsSound id (new_entry j call scope no_session) false no_session s v
request_approval-IsSound id j call scope (append_threw message) s v = v
request_approval-IsSound id j call scope appended s v = record { recorded = v.recorded }

-- The requests that are being recorded are filed under their own ids.
abbrev pub IsKeyed : Approvals → Type 0
IsKeyed s = (j : String) (e : PendingEntry) → Dict.get j s.requesting ≡ some e → e.approval_id ≡ j

pub settle_requesting :
    (entry : PendingEntry) (st : Settlement) (r : Recording) (s : Approvals)
    → (settle entry st r s).requesting ≡ s.requesting
unfolding settle record_decision resolve
settle_requesting entry st r s = ground arith

pub settle_id_requesting :
    (j : String) (st : PendingEntry → Settlement) (r : Recording) (s : Approvals)
    → (settle_id j st r s).requesting ≡ s.requesting
unfolding settle_id
settle_id_requesting j st r s = elim (Option-cases (Dict.get j s.pending)) [
  | inl e ↦ rw (e, settle_id) refl
  | inr (entry, e) ↦ rw (e, settle_id) (settle_requesting entry (st entry) r s)
]

pub reevaluate_entries_requesting :
    (options : ApprovalOptions) (change : Reevaluation) (recording : PendingEntry → Recording)
    (entries : Dict PendingEntry) (s : Approvals)
    → (reevaluate_entries options change recording entries s).requesting ≡ s.requesting
unfolding reevaluate_entries settle_verdict
reevaluate_entries_requesting options change recording [] s = refl
reevaluate_entries_requesting options change recording ((j, entry) ∷ rest) s =
    elim (Option-cases (verdict options change entry)) [
      | inl e ↦
          rw (e, reevaluate_entries) (reevaluate_entries_requesting options change recording rest s)
      | inr (st, e) ↦
          rw (e, reevaluate_entries)
            (reevaluate_entries_requesting options change recording rest _
              ∙ settle_requesting entry st (recording entry) s)
    ]

pub ask_user_requesting :
    (entry : PendingEntry) (stopped : Bool) (r : Recording) (s : Approvals)
    → (ask_user entry stopped r s).requesting ≡ s.requesting
unfolding ask_user
ask_user_requesting entry true r s = settle_requesting entry (stop_settlement entry) r _
ask_user_requesting entry false r s = refl

pub request_approval-IsKeyed :
    (j : String) (call : ToolCall) (scope : ApprovalScope) (r : Recording) (s : Approvals)
    → IsKeyed s
    → IsKeyed (request_approval j call scope r s)
unfolding request_approval
request_approval-IsKeyed j call scope no_session s v = λ k e h. v k e (
    sym
      (ap (Dict.get k) (ask_user_requesting (new_entry j call scope no_session) false no_session s))
    ∙ h)
request_approval-IsKeyed j call scope (append_threw message) s v = v
request_approval-IsKeyed j call scope appended s v = λ k e h. ground (
  arith,
  h,
  v k e,
  get-set k j (new_entry j call scope appended) s.requesting,
  eq_iff j k,
  new_entry_id j call scope appended,
)

pub request_recorded-load :
    (id j : String) (failure : Option String) (stopped : Bool) (r : Recording) (s : Approvals)
    → IsKeyed s
    → load id (request_recorded j failure stopped r s) ≤ load id s
unfolding request_recorded
request_recorded-load id j failure stopped r s v = elim (Option-cases (Dict.get j s.requesting)) [
  | inl e ↦ rw (e, request_recorded) (omega arith)
  | inr (entry, e) ↦
      let s' = record s { requesting = Dict.delete j s.requesting } in
      let own = v j entry e in
      let less : load id s' + (if entry.approval_id == id then 1 else 0) ≤ load id s =
        unfold load in
        ground
          (arith, get-delete id j s.requesting, e, own, eq_iff j id, eq_iff entry.approval_id id) in
      elim (Option-cases failure) [
        | inr (message, f) ↦ rw (e, f, request_recorded) (omega (arith, less))
        | inl f ↦
            let more = ask_user-load id entry stopped r s' in
            rw (e, f, request_recorded) (omega (arith, less, more))
      ]
]

pub request_recorded-IsSound :
    (id j : String) (failure : Option String) (stopped : Bool) (r : Recording) (s : Approvals)
    → IsSound id s
    → IsSound id (request_recorded j failure stopped r s)
unfolding request_recorded accounted
request_recorded-IsSound id j failure stopped r s v =
    elim (Option-cases (Dict.get j s.requesting)) [
      | inl e ↦ rw (e, request_recorded) v
      | inr (entry, e) ↦
          let v' : IsSound id (record s { requesting = Dict.delete j s.requesting }) = record {
            recorded = v.recorded;
          } in
          elim (Option-cases failure) [
            | inr (message, f) ↦ rw (e, f, request_recorded) v'
            | inl f ↦ rw (e, f, request_recorded) (ask_user-IsSound id entry stopped r _ v')
          ]
    ]

pub request_recorded_requesting :
    (j k : String) (failure : Option String) (stopped : Bool) (r : Recording) (s : Approvals)
    (e : PendingEntry)
    → Dict.get k (request_recorded j failure stopped r s).requesting ≡ some e
    → Dict.get k s.requesting ≡ some e
unfolding request_recorded
request_recorded_requesting j k failure stopped r s e h =
    elim (Option-cases (Dict.get j s.requesting)) [
      | inl f ↦ ground (arith, f, h)
      | inr (entry, f) ↦
          let s' = record s { requesting = Dict.delete j s.requesting } in
          let same = ask_user_requesting entry stopped r s' in
          let gone = get-delete k j s.requesting in
          let there : Dict.get k s'.requesting ≡ some e = elim (Option-cases failure) [
            | inr (message, g) ↦ ground (arith, f, g, h)
            | inl g ↦ ground (arith, f, g, h, same)
          ] in
          ground (arith, there, gone)
    ]

pub decision_recorded_requesting :
    (j : String) (failure : Option String) (s : Approvals)
    → (decision_recorded j failure s).requesting ≡ s.requesting
unfolding decision_recorded resolve
decision_recorded_requesting j failure s = ground arith

pub reevaluate_entries-load :
    (options : ApprovalOptions) (change : Reevaluation) (recording : PendingEntry → Recording)
    (id : String) (entries : Dict PendingEntry) (s : Approvals)
    → load id (reevaluate_entries options change recording entries s) ≤ load id s
unfolding reevaluate_entries settle_verdict
reevaluate_entries-load options change recording id [] s = omega arith
reevaluate_entries-load options change recording id ((j, entry) ∷ rest) s =
    elim (Option-cases (verdict options change entry)) [
      | inl e ↦
          rw (e, reevaluate_entries) (reevaluate_entries-load options change recording id rest s)
      | inr (st, e) ↦
          let less = settle-load id entry st (recording entry) s in
          let rest_less =
            reevaluate_entries-load options change recording id rest
              (settle entry st (recording entry) s) in
          rw (e, reevaluate_entries) (omega (arith, less, rest_less))
    ]

pub reevaluate_entries-IsSound :
    (options : ApprovalOptions) (change : Reevaluation) (recording : PendingEntry → Recording)
    (id : String) (entries : Dict PendingEntry) (s : Approvals)
    → IsSound id s
    → IsSound id (reevaluate_entries options change recording entries s)
unfolding reevaluate_entries settle_verdict
reevaluate_entries-IsSound options change recording id [] s v = v
reevaluate_entries-IsSound options change recording id ((j, entry) ∷ rest) s v =
    elim (Option-cases (verdict options change entry)) [
      | inl e ↦
          rw (e, reevaluate_entries)
            (reevaluate_entries-IsSound options change recording id rest s v)
      | inr (st, e) ↦
          rw (e, reevaluate_entries)
            (reevaluate_entries-IsSound options change recording id rest _
              (settle-IsSound id entry st (recording entry) s v))
    ]

module _ (options : ApprovalOptions) where
  -- What the listener does is to answer or to throw, or to request an approval of the canonical call.
  pub pre_execute-cases :
      (j : String) (call : ToolCall) (scope : ApprovalScope) (policy : Dict ApprovalMode)
      (stopped : Bool) (r : Recording) (s : Approvals)
      → ((pre_execute options j call scope policy stopped r s).1 ≡ s)
        ⊎ ((canonical : ToolCall) × ((pre_execute options j call scope policy stopped r s).1
              ≡ request_approval j canonical scope (recording_of scope.session_id r) s))
  unfolding pre_execute
  pre_execute-cases j call scope policy stopped r s = elim (Option-cases (canonical_call call)) [
    | inl e ↦ inl (rw (e, pre_execute) refl)
    | inr (canonical, c) ↦
        elim (Option-cases (immediate options (canonical_policy policy) canonical scope stopped)) [
          | inr (answer, e) ↦ inl (rw (c, pre_execute) (rw (e, pre_execute) refl))
          | inl e ↦ inr (canonical, rw (c, pre_execute) (rw (e, pre_execute) refl))
        ]
  ]
