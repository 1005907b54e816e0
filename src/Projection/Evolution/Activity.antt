-- ===== src/Projection/Evolution/Activity.antt =====
-- The cases for approvals, hooks, children and context manifests.
use mini_dsh.Common.{ℕ, String, Option, none, some, Bool-cases, inl, inr, ◌==◌, or_else}
use mini_dsh.Projection.Item.{Manifest, ToolCall}
use mini_dsh.Projection.Event.{SseEvent}
use mini_dsh.Projection.State.{Projector}
use mini_dsh.Projection.Audit.{
  request_approval, undecided, on_approval_decision, hook_failed, on_hook_run,
}
use mini_dsh.Projection.Turn.{
  spawn, spawn_child, find_child, settle_child, place_manifest, note_manifest,
}
use mini_dsh.Projection.Evolution.{
  Evolves, stay, added, amended, on_delegation-kind, on_context-kind,
}

pub request_approval-Evolves :
    (id : Option String) (o : Option ToolCall) (p : Projector)
    → Evolves p.view (request_approval id o p).view
unfolding request_approval
request_approval-Evolves none o p = stay
request_approval-Evolves (some id) none p = stay
request_approval-Evolves (some id) (some call) p = stay

pub undecided-Evolves :
    (o : Option String) (e : SseEvent) (p : Projector) → Evolves p.view (undecided o e p).view
unfolding undecided
undecided-Evolves none e p = stay
undecided-Evolves (some label) e p = added stay _

pub approval_decision-Evolves :
    (e : SseEvent) (p : Projector) → Evolves p.view (on_approval_decision e p).view
unfolding on_approval_decision
approval_decision-Evolves e p = elim (Bool-cases (or_else e.decision "" == "allow")) [
  | inl h ↦ rw h (added stay _)
  | inr h ↦ rw h (elim (Bool-cases (or_else e.decision "" == "deny")) [
    | inl k ↦ rw k (added stay _)
    | inr k ↦ rw k (undecided-Evolves _ e p)
  ])
]

pub hook_failed-Evolves :
    (o : Option String) (e : SseEvent) (p : Projector) → Evolves p.view (hook_failed o e p).view
unfolding hook_failed
hook_failed-Evolves none e p = stay
hook_failed-Evolves (some why) e p = added stay _

pub hook_run-Evolves : (e : SseEvent) (p : Projector) → Evolves p.view (on_hook_run e p).view
unfolding on_hook_run
hook_run-Evolves e p = elim (Bool-cases (or_else e.decision "" == "block")) [
  | inl h ↦ rw h (added stay _)
  | inr h ↦ rw h (hook_failed-Evolves _ e p)
]

pub spawn-Evolves :
    (e : SseEvent) (child : String) (p : Projector) → Evolves p.view (spawn e child p).1.view
unfolding spawn
spawn-Evolves e child p = added stay _

pub spawn_child-Evolves :
    (o : Option String) (e : SseEvent) (p : Projector) → Evolves p.view (spawn_child o e p).view
unfolding spawn_child
spawn_child-Evolves none e p = stay
spawn_child-Evolves (some child) e p = spawn-Evolves e child p

pub find_child-Evolves :
    (o : Option ℕ) (child : String) (e : SseEvent) (p : Projector)
    → Evolves p.view (find_child o child e p).1.view
unfolding find_child
find_child-Evolves none child e p = spawn-Evolves e child p
find_child-Evolves (some n) child e p = stay

pub settle_child-Evolves :
    (o : Option String) (e : SseEvent) (p : Projector) → Evolves p.view (settle_child o e p).view
unfolding settle_child
settle_child-Evolves none e p = stay
settle_child-Evolves (some child) e p =
    amended (find_child-Evolves _ child e p) _ _ (on_delegation-kind _)

pub place_manifest-Evolves :
    (o : Option ℕ) (key : String) (m : Manifest) (e : SseEvent) (p : Projector)
    → Evolves p.view (place_manifest o key m e p).view
unfolding place_manifest
place_manifest-Evolves none key m e p = added stay _
place_manifest-Evolves (some n) key m e p = amended stay n _ (on_context-kind _)

pub note_manifest-Evolves :
    (o : Option Manifest) (e : SseEvent) (p : Projector) → Evolves p.view (note_manifest o e p).view
unfolding note_manifest
note_manifest-Evolves none e p = stay
note_manifest-Evolves (some m) e p = place_manifest-Evolves _ _ m e p
