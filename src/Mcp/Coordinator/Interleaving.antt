-- ===== src/Mcp/Coordinator/Interleaving.antt =====
-- What holds of any number of dispatches at once.
use mini_dsh.Common.{
  Option-cases, inl, inr, ℕ, zero, suc, ◌+◌, ◌≤◌, ◌<◌, String, ◌≡◌, true, some, List, [], ◌∷◌,
  arith, eq_iff, ◌==◌, if◌then◌else◌,
}
use mini_dsh.Common.Keys
use mini_dsh.Mcp.Journal.{DispatchIntent, Write, Journal}
use mini_dsh.Mcp.Journal.Claims.{
  claimed, reserve_fresh, reserve_refused, claimed-reserve, claimed-intent_written,
  claimed-terminal_written, claimed-intent_written_failed, claimed-release,
}
use mini_dsh.Mcp.Journal.Log.{
  logged, logged-reserve, logged-intent_written, logged-intent_written_self,
  logged-terminal_written, logged-release,
}
use mini_dsh.Mcp.Coordinator.{CallResult, Stat, open_dispatch, answer_claim, clear_audit_fault}
use mini_dsh.Mcp.Coordinator.System.{
  System, Ending, Action, begin, intent_settled, claim_released, call_settled, terminal_settled,
  fault_settled, fault_cleared, pick, ask_intent, begin_dispatch, settle_intent, release_claim,
  ask_terminal, settle_answer, terminal_of, settle_ending, step, run, start,
}

-- How many dispatches of the list have the id.
unfoldable pub count_ids : String → List DispatchIntent → ℕ
count_ids id [] = 0
count_ids id (i ∷ is) = (if i.invocation_id == id then 1 else 0) + count_ids id is

count_ids-pick :
    (id : String) (n : ℕ) (is : List DispatchIntent) (i : DispatchIntent)
    (rest : List DispatchIntent)
    → pick n is ≡ some (i, rest)
    → count_ids id is ≡ count_ids id (i ∷ rest)
unfolding pick count_ids
count_ids-pick id n [] i rest h = ground arith
count_ids-pick id zero (k ∷ is) i rest h = ground arith
count_ids-pick id (suc n) (k ∷ is) i rest h = elim (Option-cases (pick n is)) [
  | inl e ↦ ground (arith, e)
  | inr (p, e) ↦ ground (arith, e, count_ids-pick id n is p.0 p.1 e)
]

-- How many dispatches of the id have passed their claim, and have not given it back.
unfoldable held_by : String → System → ℕ
unfolding count_ids Keys.count
held_by id s = count_ids id s.waiting + count_ids id s.refused + Keys.count id s.sent

-- What holds of one id at all times: at most one dispatch of it holds the claim, and an id that
-- is held is claimed; an id that was sent has its intent in the file.
record IsOnce (id : String) (s : System) : Type 0 where
  pub once : held_by id s ≤ 1
  pub held : 0 < held_by id s → claimed id s.host.journal ≡ true
  pub ahead : 0 < Keys.count id s.sent → logged id s.host.journal.file ≡ true

begin-IsOnce :
    (id : String) (stat : Stat) (i : DispatchIntent) (s : System)
    → IsOnce id s
    → IsOnce id (begin_dispatch stat i s)
unfolding begin_dispatch ask_intent open_dispatch answer_claim held_by
begin-IsOnce id stat i s v = ground (
  arith,
  reserve_fresh i s.host.journal,
  reserve_refused i s.host.journal,
  claimed-reserve id i s.host.journal,
  logged-reserve id i s.host.journal,
  eq_iff i.invocation_id id,
)

settle_intent-IsOnce :
    (id : String) (n : ℕ) (i : DispatchIntent) (rest : List DispatchIntent) (w : Write) (s : System)
    → pick n s.waiting ≡ some (i, rest)
    → IsOnce id s
    → IsOnce id (settle_intent i rest w s)
unfolding settle_intent held_by
settle_intent-IsOnce id n i rest w s e v = ground (
  arith,
  eq_iff i.invocation_id id,
  count_ids-pick id n s.waiting i rest e,
  claimed-intent_written id w i s.host.journal,
  claimed-intent_written_failed id w i s.host.journal,
  logged-intent_written id w i s.host.journal,
  logged-intent_written_self w i s.host.journal,
)

release_claim-IsOnce :
    (id : String) (n : ℕ) (i : DispatchIntent) (rest : List DispatchIntent) (s : System)
    → pick n s.refused ≡ some (i, rest)
    → IsOnce id s
    → IsOnce id (release_claim i rest s)
unfolding release_claim held_by
release_claim-IsOnce id n i rest s e v = ground (
  arith,
  eq_iff i.invocation_id id,
  count_ids-pick id n s.refused i rest e,
  claimed-release id i.invocation_id s.host.journal,
  logged-release id i.invocation_id s.host.journal,
)

settle_answer-IsOnce :
    (id : String) (i : DispatchIntent) (rest : List DispatchIntent) (call : CallResult) (s : System)
    → IsOnce id s
    → IsOnce id (settle_answer i rest call s)
unfolding settle_answer ask_terminal held_by
settle_answer-IsOnce id i rest call s v = ground arith

settle_ending-IsOnce :
    (hash : String → String) (id : String) (e : Ending) (rest : List Ending) (w : Write)
    (s : System)
    → IsOnce id s
    → IsOnce id (settle_ending hash e rest w s)
unfolding settle_ending held_by
settle_ending-IsOnce hash id e rest w s v = ground (
  arith,
  claimed-terminal_written id w (terminal_of hash e) s.host.journal,
  logged-terminal_written id w (terminal_of hash e) s.host.journal,
)

step-IsOnce :
    (hash : String → String) (id : String) (a : Action) (s : System)
    → IsOnce id s
    → IsOnce id (step hash a s)
unfolding step
step-IsOnce hash id (begin stat i) s v = begin-IsOnce id stat i s v
step-IsOnce hash id (intent_settled n w) s v = elim (Option-cases (pick n s.waiting)) [
  | inl e ↦ rw (e, step) v
  | inr (p, e) ↦ rw (e, step) (settle_intent-IsOnce id n p.0 p.1 w s e v)
]
step-IsOnce hash id (claim_released n) s v = elim (Option-cases (pick n s.refused)) [
  | inl e ↦ rw (e, step) v
  | inr (p, e) ↦ rw (e, step) (release_claim-IsOnce id n p.0 p.1 s e v)
]
step-IsOnce hash id (call_settled n call) s v = elim (Option-cases (pick n s.calling)) [
  | inl e ↦ rw (e, step) v
  | inr (p, e) ↦ rw (e, step) (settle_answer-IsOnce id p.0 p.1 call s v)
]
step-IsOnce hash id (terminal_settled n w) s v = elim (Option-cases (pick n s.ending)) [
  | inl e ↦ rw (e, step) v
  | inr (p, e) ↦ rw (e, step) (settle_ending-IsOnce hash id p.0 p.1 w s v)
]
step-IsOnce hash id (fault_settled n b) s v = elim (Option-cases (pick n s.failing)) [
  | inl e ↦ rw (e, step) v
  | inr (p, e) ↦ rw (e, step) (unfold held_by in ground arith)
]
step-IsOnce hash id fault_cleared s v = unfold held_by clear_audit_fault in ground arith

run-IsOnce :
    (hash : String → String) (id : String) (actions : List Action) (s : System)
    → IsOnce id s
    → IsOnce id (run hash actions s)
unfolding run
run-IsOnce hash id [] s v = v
run-IsOnce hash id (a ∷ actions) s v =
    run-IsOnce hash id actions (step hash a s) (step-IsOnce hash id a s v)

start-IsOnce : (id : String) (j : Journal) → IsOnce id (start j)
unfolding start held_by
start-IsOnce id j = record {
  once = omega arith;
  held = λ h. absurd (omega arith);
  ahead = λ h. absurd (omega arith);
}

-- From any journal, in every interleaving of dispatches, failing writes, transport answers and
-- repairs of the fault file, each invocation id is handed to the transport at most once.
pub send_at_most_once :
    (hash : String → String) (j : Journal) (actions : List Action) (id : String)
    → Keys.count id (run hash actions (start j)).sent ≤ 1
unfolding held_by
send_at_most_once hash j actions id =
    let v = run-IsOnce hash id actions (start j) (start-IsOnce id j) in
    let once = v.once in omega arith

-- From any journal, in every interleaving of dispatches, failing writes, transport answers and
-- repairs of the fault file, an invocation id that was handed to the transport has its intent among
-- the records that were written and synced, though perhaps behind what a failed write has left.
pub send_after_intent :
    (hash : String → String) (j : Journal) (actions : List Action) (id : String)
    → 0 < Keys.count id (run hash actions (start j)).sent
    → logged id (run hash actions (start j)).host.journal.file ≡ true
send_after_intent hash j actions id =
    (run-IsOnce hash id actions (start j) (start-IsOnce id j)).ahead
