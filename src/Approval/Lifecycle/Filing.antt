-- ===== src/Approval/Lifecycle/Filing.antt =====
-- The pending entries are filed under their own ids, and what settling one leaves.
use mini_dsh.Common.{
  String, ◌≡◌, refl, none, [], ◌∷◌, ◌==◌, if◌then◌else◌, arith, eq_iff, Bool-cases, inl, inr,
}
use mini_dsh.Common.Dict
use mini_dsh.Common.Dict.{Dict, get-set, get-delete}
use mini_dsh.Approval.Lifecycle.{
  Settlement, PendingEntry, Recording, no_session, appended, append_threw, Approvals, resolve,
  record_decision, settle,
}

record_decision_pending :
    (j : String) (st : Settlement) (r : Recording) (s : Approvals)
    → (record_decision j st r s).pending ≡ s.pending
unfolding record_decision resolve
record_decision_pending j st no_session s = refl
record_decision_pending j st appended s = refl
record_decision_pending j st (append_threw message) s = refl

-- `settle` takes the entry out, if it is there.
settle_pending :
    (entry : PendingEntry) (st : Settlement) (r : Recording) (s : Approvals)
    → (settle entry st r s).pending ≡ (
        if Dict.has entry.approval_id s.pending
        then Dict.delete entry.approval_id s.pending
        else s.pending)
unfolding Dict.delete settle
settle_pending entry st r s = elim (Bool-cases (Dict.has entry.approval_id s.pending)) [
  | inl e ↦ rw e (record_decision_pending entry.approval_id st _ _)
  | inr e ↦ rw e refl
]

pub get-settle :
    (id : String) (entry : PendingEntry) (st : Settlement) (r : Recording) (s : Approvals)
    → Dict.get id (settle entry st r s).pending
      ≡ (if entry.approval_id == id then none else Dict.get id s.pending)
get-settle id entry st r s =
    let e = settle_pending entry st r s in
    let gone = get-delete id entry.approval_id s.pending in
    ground (arith, e, gone, eq_iff entry.approval_id id)

-- The entries are filed under their own ids, each once.
abbrev pub Filed : Dict PendingEntry → Type 0
Filed [] = Unit
Filed ((j, e) ∷ rest) = (e.approval_id ≡ j) × (Dict.get j rest ≡ none) × Filed rest

delete-Filed : (j : String) (m : Dict PendingEntry) → Filed m → Filed (Dict.delete j m)
unfolding Dict.delete
delete-Filed j [] f = tt
delete-Filed j ((k, e) ∷ rest) f = elim (Bool-cases (k == j)) [
  | inl h ↦ rw h (delete-Filed j rest f.2)
  | inr h ↦
      let gone = get-delete k j rest in
      rw h (f.0, ground (arith, gone, f.1), delete-Filed j rest f.2)
]

pub set-Filed :
    (e : PendingEntry) (m : Dict PendingEntry) → Filed m → Filed (Dict.set e.approval_id e m)
unfolding Dict.set Dict.get
set-Filed e [] f = (refl, refl, tt)
set-Filed e ((k, x) ∷ rest) f = elim (Bool-cases (k == e.approval_id)) [
  | inl h ↦ rw h (refl, ground (arith, h, f.1, eq_iff k e.approval_id), f.2)
  | inr h ↦
      let other = get-set k e.approval_id e rest in
      rw h (
        f.0,
        ground (arith, other, h, f.1, eq_iff e.approval_id k, eq_iff k e.approval_id),
        set-Filed e rest f.2,
      )
]

pub settle-Filed :
    (entry : PendingEntry) (st : Settlement) (r : Recording) (s : Approvals)
    → Filed s.pending
    → Filed (settle entry st r s).pending
settle-Filed entry st r s f =
    rw (settle_pending entry st r s) (elim (Bool-cases (Dict.has entry.approval_id s.pending)) [
      | inl e ↦ rw e (delete-Filed entry.approval_id s.pending f)
      | inr e ↦ rw e f
    ])
