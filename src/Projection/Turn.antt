-- ===== src/Projection/Turn.antt =====
-- The cases `turn/start`, `turn/error`, `turn/end`, `agent/child-spawn`, `agent/child-result`,
-- `context/manifest`, `compaction/start` and `compaction/end`.
mod Delegations
unfoldable pub use Delegations.*
use mini_dsh.Common.{
  ℕ, ◌+◌, String, Bool, false, Option, none, some, List, [], ◌∷◌, ◌==◌, if◌then◌else◌, or_else,
  length, template, is_some, overwrite, first_some, get_elem?,
}
use mini_dsh.Common.Dict
use mini_dsh.Common.Dict.{Dict}
use mini_dsh.Projection.Item.{
  ViewItem, DelegationItem, DelegationStatus, delegation, on_delegation, on_assistant, status,
  RetryInput, RetryTarget, CompactionItem, CompactionStatus, compaction, on_compaction, context,
  on_context, Manifest,
}
use mini_dsh.Projection.Event.{SseEvent, given}
use mini_dsh.Projection.State.{Projector, push, change}

unfoldable pub place_manifest : Option ℕ → String → Manifest → SseEvent → Projector → Projector
place_manifest (some n) key manifest e p =
    change n
      (on_context λ i. record i { manifest = manifest; requests = some (or_else i.requests 1 + 1) })
      p
place_manifest none key manifest e p =
    push (context (record { ts = e.timestamp; manifest = manifest; requests = some 1 }))
      (record p { turn_contexts = Dict.set key (length (p.view).items) p.turn_contexts })

unfoldable pub note_manifest : Option Manifest → SseEvent → Projector → Projector
note_manifest none e p = p
note_manifest (some manifest) e p =
    let key = or_else p.open_turn_id "turnless" in
    place_manifest (Dict.get key p.turn_contexts) key manifest e p

unfoldable pub on_context_manifest : SseEvent → Projector → Projector
unfolding note_manifest
on_context_manifest e p = note_manifest e.manifest e p

unfoldable pub on_compaction_start : SseEvent → Projector → Projector
on_compaction_start e p =
    push
      (compaction (record {
        ts = e.timestamp;
        status = CompactionStatus.running;
        trigger = e.trigger;
        model = e.model;
        covers_seq = none;
        summary_chars = none;
        duration_ms = none;
        summary = none;
        error = none;
      }))
      (record p { open_compaction = some (length (p.view).items) })

abbrev pub patch : SseEvent → CompactionItem → CompactionItem
patch e i = record i {
  status = if is_some e.error then CompactionStatus.failed else CompactionStatus.completed;
  trigger = overwrite i.trigger e.trigger;
  model = overwrite i.model e.model;
  covers_seq = overwrite i.covers_seq e.covers_seq;
  summary_chars = overwrite i.summary_chars e.summary_chars;
  duration_ms = overwrite i.duration_ms e.duration_ms;
  summary = overwrite i.summary e.summary;
  error = overwrite i.error e.error;
}

unfoldable pub close_compaction : Option ℕ → SseEvent → Projector → Projector
close_compaction (some n) e p = record (change n (on_compaction (patch e)) p) {
  open_compaction = none;
}
close_compaction none e p =
    push
      (compaction (
        patch e (record {
          ts = e.timestamp;
          status = CompactionStatus.running;
          trigger = none;
          model = none;
          covers_seq = none;
          summary_chars = none;
          duration_ms = none;
          summary = none;
          error = none;
        })))
      p

unfoldable pub on_compaction_end : SseEvent → Projector → Projector
unfolding close_compaction
on_compaction_end e p = close_compaction p.open_compaction e p

-- The open compaction, if it is still running and the event does not end it.
unfoldable pub interrupt : Option ℕ → Option ViewItem → Projector → Projector
interrupt (some n) (some (compaction i)) p = elim i.status [
  | CompactionStatus.running ↦
      change n (on_compaction λ c. record c { status = CompactionStatus.interrupted }) p
  | _ ↦ p
]
interrupt _ _ p = p

unfoldable pub item_at : Option ℕ → List ViewItem → Option ViewItem
item_at none items = none
item_at (some n) items = get_elem? items n

unfoldable pub interrupt_compaction : Projector → Projector
unfolding interrupt item_at
interrupt_compaction p = interrupt p.open_compaction (item_at p.open_compaction (p.view).items) p

-- What Retry resends: the turn's accepted inputs, or else its legacy ones.
unfoldable pub retry_inputs : Projector → List RetryInput
retry_inputs p = elim p.turn_inputs [ [] ↦ p.turn_legacy_inputs | i ∷ is ↦ i ∷ is ]

unfoldable pub is_rejected : Option String → Bool
is_rejected none = false
is_rejected (some kind) = kind == "rejected"

unfoldable pub retry_of : List RetryInput → SseEvent → Projector → Option RetryTarget
retry_of [] e p = none
retry_of (i ∷ is) e p =
    if is_rejected e.kind
    then none
    else some (record { key = e.seq; inputs = i ∷ is; tools_ran = p.turn_tools_ran })

unfoldable pub report_error : Option String → SseEvent → Projector → Projector
report_error none e p = p
report_error (some message) e p =
    push
      (status (record {
        reason = template (or_else e.kind "error" ∷ ": " ∷ message ∷ []);
        retry = retry_of (retry_inputs p) e p;
      }))
      p

unfoldable pub on_turn_error : SseEvent → Projector → Projector
unfolding report_error
on_turn_error e p = report_error e.message e p

unfoldable pub close_draft : Option ℕ → Projector → Projector
close_draft none p = p
close_draft (some n) p =
    record (change n (on_assistant λ i. record i { live = false; thinking_live = false }) p) {
      draft = none;
    }

unfoldable pub close_answers : List ℕ → Projector → Projector
close_answers [] p = p
close_answers (n ∷ ns) p =
    close_answers ns (change n (on_assistant λ i. record i { turn_open = some false }) p)

unfoldable pub close_turn : Option String → Projector → Projector
close_turn none p = p
close_turn (some id) p =
    let p' = close_answers (or_else (Dict.get id p.turn_assistants) []) p in
    record p' {
      turn_assistants = Dict.delete id p'.turn_assistants;
      turn_contexts = Dict.delete id p'.turn_contexts;
    }

unfoldable pub interrupt_child : ℕ → Option ViewItem → Projector → Projector
interrupt_child n (some (delegation i)) p = elim i.status [
  | DelegationStatus.running ↦
      change n (on_delegation λ d. record d { status = DelegationStatus.interrupted }) p
  | _ ↦ p
]
interrupt_child n _ p = p

unfoldable pub interrupt_children : Dict ℕ → Projector → Projector
interrupt_children [] p = p
interrupt_children ((child, n) ∷ rest) p =
    interrupt_children rest (interrupt_child n (get_elem? (p.view).items n) p)

unfoldable pub report_end : Option String → Projector → Projector
report_end none p = p
report_end (some reason) p = push (status (record { reason = reason; retry = none })) p

unfoldable pub on_turn_end : SseEvent → Projector → Projector
on_turn_end e p =
    let p1 = close_draft p.draft p in
    let p2 = close_turn (first_some (given e.turn_id) p1.open_turn_id) p1 in
    let p3 = record p2 { open_turn_id = none } in
    report_end e.reason (interrupt_children p3.delegations p3)
