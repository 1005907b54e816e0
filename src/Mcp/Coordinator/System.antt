-- ===== src/Mcp/Coordinator/System.antt =====
-- Any number of dispatches at once. The pieces of `dispatchToolCall` between two awaits run without
-- interruption, so a history is a list of actions, each one such piece of one dispatch.
use mini_dsh.Common.{
  ℕ, zero, suc, String, Bool, false, Option, none, some, List, [], ◌∷◌, if◌then◌else◌, ◌||◌,
}
use mini_dsh.Mcp.Journal.{
  ToolOutcome, success, error, indeterminate, DispatchIntent, TerminalRecord, Write, Journal,
  intent_refusal, intent_written, terminal_written, release,
}
use mini_dsh.Mcp.Coordinator.{
  answered, threw, Host, owned, CallResult, Stat, open_dispatch, clear_audit_fault, slice_to,
}

-- A terminal record that `finish` appends.
pub record Ending : Type 0 where
  pub invocation_id : String
  pub outcome : ToolOutcome
  pub detail : String

-- `waiting` are the dispatches whose intent is queued or being written, `refused` those whose
-- `appendIntent` has thrown and that have not released their claim yet, `calling` those whose request
-- has been handed to the transport, `ending` the terminal records that are queued or being written,
-- `failing` those whose append has thrown and whose fault file is being written, and `sent` every
-- invocation id that was ever handed over.
pub record System : Type 0 where
  pub host : Host
  pub waiting : List DispatchIntent
  pub refused : List DispatchIntent
  pub calling : List DispatchIntent
  pub ending : List Ending
  pub failing : List Ending
  pub sent : List String

-- The answer of `stat` in `begin` may be out of date. The writes may end in any order.
pub data Action : Type 0 where
  begin : Stat → DispatchIntent → Action
  intent_settled : ℕ → Write → Action
  claim_released : ℕ → Action
  call_settled : ℕ → CallResult → Action
  terminal_settled : ℕ → Write → Action
  fault_settled : ℕ → Bool → Action
  fault_cleared : Action

module _ {ℓ} {A : Type ℓ} where
  -- The element at a position, and the list without it.
  unfoldable pub pick : ℕ → List A → Option (A × List A)
  pick n [] = none
  pick zero (i ∷ is) = some (i, is)
  pick (suc n) (i ∷ is) = elim (pick n is) [ none ↦ none | some (k, rest) ↦ some (k, i ∷ rest) ]

-- `appendIntent` up to its `await`.
unfoldable pub ask_intent : Option String → DispatchIntent → System → System
ask_intent (some message) i s = record s { refused = i ∷ s.refused }
ask_intent none i s = record s { waiting = i ∷ s.waiting }

unfoldable pub begin_dispatch : Stat → DispatchIntent → System → System
unfolding ask_intent
begin_dispatch stat i s =
    let (opening, j) = open_dispatch stat i s.host.journal in
    let s' = record s { host = record (s.host) { journal = j } } in
    elim opening [ owned ↦ ask_intent (intent_refusal i j) i s' | _ ↦ s' ]

unfoldable pub settle_intent : DispatchIntent → List DispatchIntent → Write → System → System
settle_intent i rest w s =
    let (failure, j) = intent_written w i s.host.journal in
    let host = record (s.host) { journal = j } in
    elim failure [
      | some message ↦ record s { host = host; waiting = rest; refused = i ∷ s.refused }
      | none ↦ record s {
        host = host;
        waiting = rest;
        calling = i ∷ s.calling;
        sent = i.invocation_id ∷ s.sent;
      }
    ]

-- The `catch` of `appendIntent`.
unfoldable pub release_claim : DispatchIntent → List DispatchIntent → System → System
release_claim i rest s = record s {
  host = record (s.host) { journal = release i.invocation_id s.host.journal };
  refused = rest;
}

unfoldable pub ending_of : DispatchIntent → CallResult → Ending
ending_of i (threw message not_sent) = record {
  invocation_id = i.invocation_id;
  outcome = if not_sent then error else indeterminate;
  detail = message;
}
ending_of i (answered content is_error) = record {
  invocation_id = i.invocation_id;
  outcome = if is_error then error else success;
  detail = content;
}

-- `appendTerminal` up to its `await`.
unfoldable pub ask_terminal : Option String → Ending → System → System
ask_terminal (some message) e s = record s { failing = e ∷ s.failing }
ask_terminal none e s = record s { ending = e ∷ s.ending }

unfoldable pub settle_answer : DispatchIntent → List DispatchIntent → CallResult → System → System
unfolding ending_of ask_terminal
settle_answer i rest call s =
    ask_terminal s.host.journal.poisoned (ending_of i call) (record s { calling = rest })

module _ (hash : String → String) where
  unfoldable pub terminal_of : Ending → TerminalRecord
  terminal_of e = record {
    invocation_id = e.invocation_id;
    outcome = e.outcome;
    output_hash = hash e.detail;
    detail = slice_to 500 e.detail;
  }

  unfoldable pub settle_ending : Ending → List Ending → Write → System → System
  unfolding terminal_of
  settle_ending e rest w s =
      let (failure, j) = terminal_written w (terminal_of e) s.host.journal in
      let s' = record s { host = record (s.host) { journal = j }; ending = rest } in
      elim failure [ some message ↦ record s' { failing = e ∷ s.failing } | none ↦ s' ]

  unfoldable pub step : Action → System → System
  unfolding begin_dispatch settle_intent release_claim settle_answer settle_ending pick
      clear_audit_fault
  step (begin stat i) s = begin_dispatch stat i s
  step (intent_settled n w) s = elim (pick n s.waiting) [
    | none ↦ s
    | some (i, rest) ↦ settle_intent i rest w s
  ]
  step (claim_released n) s = elim (pick n s.refused) [
    | none ↦ s
    | some (i, rest) ↦ release_claim i rest s
  ]
  step (call_settled n call) s = elim (pick n s.calling) [
    | none ↦ s
    | some (i, rest) ↦ settle_answer i rest call s
  ]
  step (terminal_settled n w) s = elim (pick n s.ending) [
    | none ↦ s
    | some (e, rest) ↦ settle_ending e rest w s
  ]
  step (fault_settled n written) s = elim (pick n s.failing) [
    | none ↦ s
    | some (e, rest) ↦ record s {
      host = record (s.host) { fault = written || s.host.fault };
      failing = rest;
    }
  ]
  step fault_cleared s = record s { host = clear_audit_fault s.host }

  unfoldable pub run : List Action → System → System
  unfolding step
  run [] s = s
  run (a ∷ actions) s = run actions (step a s)

unfoldable pub start : Journal → System
start j = record {
  host = record { journal = j; fault = false };
  waiting = [];
  refused = [];
  calling = [];
  ending = [];
  failing = [];
  sent = [];
}
