-- ===== src/Approval/Lifecycle/Remaining.antt =====
-- What a re-evaluation leaves pending.
use mini_dsh.Common.{
  String, ◌≡◌, refl, ◌∙◌, true, Option, none, some, List, ◌↔◌, ◌⊎◌, first_some, arith, eq_iff, ap,
  Option-cases, inl, inr,
}
use mini_dsh.Common.Dict
use mini_dsh.Common.Dict.{Dict, get-set, get-delete}
use mini_dsh.Common.Keys
use mini_dsh.Approval.{ask, allow, mode_for, final_mode}
use mini_dsh.Approval.Lifecycle.{
  ApprovalOptions, PendingEntry, Recording, no_approvals, Reevaluation, verdict, in_scope, same_as,
  exposed, call_mode, reevaluate,
}
use mini_dsh.Approval.Lifecycle.History.{Action, history}
use mini_dsh.Approval.Lifecycle.Settled.{unsettled, get-reevaluate}

-- A part of the scope of a change: any value, if it is not given, and the same one otherwise.
abbrev pub Matches : Option String → Option String → Type 0
Matches none actual = Unit
Matches (some expected) actual = actual ≡ some expected

abbrev pub IsExposed : Option (List String) → String → Type 0
IsExposed none name = Unit
IsExposed (some names) name = Keys.mem name names ≡ true

-- What a re-evaluation leaves alone.
abbrev pub Stays : ApprovalOptions → Reevaluation → PendingEntry → Type 0
Stays options change e =
    let mode = mode_for change.policy (e.call).name options.default_mode in
    (¬ Matches change.workspace_id (e.scope).workspace_id)
    ⊎ ((¬ Matches change.root_session_id
          (first_some (e.scope).root_session_id (e.scope).session_id))
        ⊎ (IsExposed change.tool_exposure (e.call).name
            × ((mode ≡ ask) ⊎ ((mode ≡ allow) × (options.force_ask e.call e.scope ≡ true)))))

same_as-Matches : (x y : Option String) → (same_as x y ≡ true) ↔ Matches x y
unfolding same_as
same_as-Matches none y = (λ h. tt, λ h. refl)
same_as-Matches (some x) none = (λ h. ground (arith, h), λ h. ground (arith, h))
same_as-Matches (some x) (some y) =
    (λ h. ground (arith, h, eq_iff y x), λ h. ground (arith, h, eq_iff y x))

exposed-IsExposed :
    (names : Option (List String)) (name : String)
    → (exposed names name ≡ true) ↔ IsExposed names name
unfolding exposed
exposed-IsExposed none name = (λ h. tt, λ h. refl)
exposed-IsExposed (some names) name = (λ h. h, λ h. h)

verdict-Stays :
    (options : ApprovalOptions) (change : Reevaluation) (e : PendingEntry)
    → (verdict options change e ≡ none) ↔ Stays options change e
unfolding verdict in_scope call_mode final_mode
verdict-Stays options change e =
    let w = same_as-Matches change.workspace_id (e.scope).workspace_id in
    let r =
      same_as-Matches change.root_session_id
        (first_some (e.scope).root_session_id (e.scope).session_id) in
    let x = exposed-IsExposed change.tool_exposure (e.call).name in
    (λ h. ground (arith, h, w, r, x), λ h. ground (arith, h, w, r, x))

-- After any history, a re-evaluation leaves a pending approval as it is, or takes it from the pending
-- ones. It stays exactly if its workspace or its root session, which is its own session where it has
-- none, is not the one that the change names, or if its tool is exposed and the mode for it is `ask`,
-- or `allow` with an answer forced.
pub reevaluate_lem :
    (options : ApprovalOptions) (actions : List Action) (change : Reevaluation)
    (recording : PendingEntry → Recording) (id : String) (e : PendingEntry)
    → Dict.get id (history options actions no_approvals).pending ≡ some e
    → let s' = reevaluate options change recording (history options actions no_approvals) in
      ((Dict.get id s'.pending ≡ some e) ↔ Stays options change e)
      × ((Dict.get id s'.pending ≡ some e) ⊎ (Dict.get id s'.pending ≡ none))
unfolding unsettled
reevaluate_lem options actions change recording id e h =
    let s' = reevaluate options change recording (history options actions no_approvals) in
    let all : Dict.get id s'.pending ≡ unsettled options change (some e) =
      get-reevaluate options actions change recording id ∙ ap (unsettled options change) h in
    let stays = verdict-Stays options change e in
    elim (Option-cases (verdict options change e)) [
      | inl v ↦
          let kept : Dict.get id s'.pending ≡ some e = all ∙ rw (v, unsettled) refl in
          ((λ k. stays.0 v, λ k. kept), inl kept)
      | inr (st, v) ↦
          let gone : Dict.get id s'.pending ≡ none = all ∙ rw (v, unsettled) refl in
          (
            (λ k. absurd (ground (arith, k, gone)), λ k. absurd (ground (arith, stays.1 k, v))),
            inr gone,
          )
    ]
