-- ===== src/Approval/Lifecycle/Settlements.antt =====
-- Histories of approvals: who settles, how often, and what is on disk by then.
use mini_dsh.Common.{
  ℕ, ◌+◌, ◌≤◌, ◌<◌, String, ◌≡◌, true, List, [], ◌∷◌, arith, inl, inr, ap, sym, ◌∙◌,
}
use mini_dsh.Common.Dict
use mini_dsh.Common.Dict.{Dict, get-set, get-delete}
use mini_dsh.Approval.Lifecycle.{
  Settlement, ApprovalOptions, PendingEntry, Recording, Approvals, no_approvals, recording_of,
  settle_id, answer_settlement, reevaluate, stop_settlement, expiry_settlement,
}
use mini_dsh.Approval.Lifecycle.History.{
  Action, settlements, allowances, arrivals, load, accounted, IsSound, act, history, calls,
  records_request, expires, stops, answers, answerer_fails, reevaluates, records_decision,
}
use mini_dsh.Approval.Lifecycle.Counts.{
  decision_recorded-load, decision_recorded-IsSound, settle_id-load, settle_id-IsSound,
}
use mini_dsh.Approval.Lifecycle.Requests.{
  request_approval-load, request_approval-IsSound, IsKeyed, settle_id_requesting,
  reevaluate_entries_requesting, request_approval-IsKeyed, request_recorded-load,
  request_recorded-IsSound, request_recorded_requesting, decision_recorded_requesting,
  reevaluate_entries-load, reevaluate_entries-IsSound, pre_execute-cases,
}

module _ (options : ApprovalOptions) where
  -- What holds of one id in every history.
  record IsOnce (id : String) (n : ℕ) (s : Approvals) : Type 0 where
    once : load id s ≤ n
    sound : IsSound id s
    keyed : IsKeyed s

  settle_id-IsOnce :
      (id : String) (n : ℕ) (j : String) (st : PendingEntry → Settlement) (r : Recording)
      (s : Approvals)
      → IsOnce id n s
      → IsOnce id (n + 0) (settle_id j st r s)
  settle_id-IsOnce id n j st r s v = record {
    once = omega (arith, v.once, settle_id-load id j st r s);
    sound = settle_id-IsSound id j st r s v.sound;
    keyed = λ k e h. v.keyed k e (sym (ap (Dict.get k) (settle_id_requesting j st r s)) ∙ h);
  }

  act-IsOnce :
      (id : String) (n : ℕ) (a : Action) (s : Approvals)
      → IsOnce id n s
      → IsOnce id (n + arrivals id (a ∷ [])) (act options a s)
  unfolding act arrivals reevaluate
  act-IsOnce id n (calls j call scope policy stopped r) s v =
      let req = recording_of scope.session_id r in
      elim (pre_execute-cases options j call scope policy stopped r s) [
        | inl e ↦ rw e (record { once = omega (arith, v.once); sound = v.sound; keyed = v.keyed })
        | inr (canonical, e) ↦
            let more = request_approval-load id j canonical scope req s in
            rw e (record {
              once = omega (arith, v.once, more);
              sound = request_approval-IsSound id j canonical scope req s v.sound;
              keyed = request_approval-IsKeyed j canonical scope req s v.keyed;
            })
      ]
  act-IsOnce id n (records_request j failure stopped r) s v = record {
    once = omega (arith, v.once, request_recorded-load id j failure stopped r s v.keyed);
    sound = request_recorded-IsSound id j failure stopped r s v.sound;
    keyed = λ k e h. v.keyed k e (request_recorded_requesting j k failure stopped r s e h);
  }
  act-IsOnce id n (expires j r) s v = settle_id-IsOnce id n j expiry_settlement r s v
  act-IsOnce id n (stops j r) s v = settle_id-IsOnce id n j stop_settlement r s v
  act-IsOnce id n (answers j policy says_yes r) s v =
      settle_id-IsOnce id n j (answer_settlement options policy says_yes) r s v
  act-IsOnce id n (answerer_fails j message r) s v = settle_id-IsOnce id n j _ r s v
  act-IsOnce id n (reevaluates change recording) s v = record {
    once = omega (arith, v.once, reevaluate_entries-load options change recording id s.pending s);
    sound = reevaluate_entries-IsSound options change recording id s.pending s v.sound;
    keyed = λ k e h. v.keyed k e (
        sym (ap (Dict.get k) (reevaluate_entries_requesting options change recording s.pending s))
        ∙ h);
  }
  act-IsOnce id n (records_decision j failure) s v = record {
    once = omega (arith, v.once, decision_recorded-load id j failure s);
    sound = decision_recorded-IsSound id j failure s v.sound;
    keyed =
        λ k e h. v.keyed k e (sym (ap (Dict.get k) (decision_recorded_requesting j failure s)) ∙ h);
  }

  arrivals_cons :
      (id : String) (a : Action) (actions : List Action)
      → arrivals id (a ∷ actions) ≡ arrivals id (a ∷ []) + arrivals id actions
  unfolding arrivals
  arrivals_cons id (calls j call scope policy stopped r) actions = omega arith
  arrivals_cons id (records_request j failure stopped r) actions = omega arith
  arrivals_cons id (expires j r) actions = omega arith
  arrivals_cons id (stops j r) actions = omega arith
  arrivals_cons id (answers j policy says_yes r) actions = omega arith
  arrivals_cons id (answerer_fails j message r) actions = omega arith
  arrivals_cons id (reevaluates change recording) actions = omega arith
  arrivals_cons id (records_decision j failure) actions = omega arith

  history-IsOnce :
      (id : String) (n : ℕ) (actions : List Action) (s : Approvals)
      → IsOnce id n s
      → IsOnce id (n + arrivals id actions) (history options actions s)
  unfolding history
  history-IsOnce id n [] s v =
      unfold arrivals in record { once = omega (arith, v.once); sound = v.sound; keyed = v.keyed }
  history-IsOnce id n (a ∷ actions) s v =
      let w =
        history-IsOnce id (n + arrivals id (a ∷ [])) actions (act options a s)
          (act-IsOnce id n a s v) in
      record {
        once = omega (arith, w.once, arrivals_cons id a actions);
        sound = w.sound;
        keyed = w.keyed;
      }

  no_approvals-IsOnce : (id : String) → IsOnce id 0 no_approvals
  unfolding no_approvals load settlements allowances Dict.get
  no_approvals-IsOnce id = record {
    once = omega arith;
    sound = record { recorded = λ h. absurd (omega arith) };
    keyed = λ j e h. ground (arith, h);
  }

  -- In every history of calls, answers, stops, expiries, policy changes and failing records, a waiter
  -- is resolved at most as often as calls came with its approval id: once, where the ids differ.
  pub settle_once :
      (actions : List Action) (id : String)
      → settlements id (history options actions no_approvals).settled ≤ arrivals id actions
  settle_once actions id =
      let v = history-IsOnce id 0 actions no_approvals (no_approvals-IsOnce id) in
      unfold load in omega (arith, v.once)

  -- In every history of calls, answers, stops, expiries, policy changes and failing records, an
  -- approval that was resolved with `allow`, so that its call proceeds, has its decision on disk by
  -- then, or had no session to be recorded in.
  pub allow_recorded :
      (actions : List Action) (id : String)
      → 0 < allowances id (history options actions no_approvals).settled
      → accounted id (history options actions no_approvals) ≡ true
  allow_recorded actions id =
      (history-IsOnce id 0 actions no_approvals (no_approvals-IsOnce id)).sound.recorded
