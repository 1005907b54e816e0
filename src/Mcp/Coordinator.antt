-- ===== src/Mcp/Coordinator.antt =====
-- harness/mcp/execution-coordinator.ts: one automatic `tools/call` per invocation. The awaited
-- parts of the environment are arguments: what `stat` of the fault file answers, the two journal
-- writes, the transport's answer, and whether the fault file could be written. The hash of a text
-- is the section's parameter.
pub mod System
pub mod Interleaving
pub mod Outcomes
pub mod Tests
use mini_dsh.Common.{
  ℕ, zero, suc, String, Bool, true, false, ◌||◌, Option, none, some, List, [], ◌∷◌, if◌then◌else◌,
  or_else, template, not, take,
}
use mini_dsh.Common.Units.{units}
use mini_dsh.Mcp.Journal.{
  ToolOutcome, success, error, indeterminate, audit_fault, DispatchIntent, TerminalRecord, Write,
  Journal, Claim, owner, in_flight, ended, integrity, Terminal, has_terminal, reserve,
  append_intent, append_terminal, release,
}

-- What the transport answers. `not_sent` says that the error is a dispatch error whose receipt is
-- `not_dispatched`.
pub data CallResult : Type 0 where
  answered : (content : String) (is_error : Bool) → CallResult
  threw : (message : String) (not_sent : Bool) → CallResult

pub record DispatchOutput : Type 0 where
  pub outcome : ToolOutcome
  pub output : String
  pub invocation_id : String

-- `fs.stat` of the fault file: it is there, it is missing (`ENOENT`), or another error.
pub data Stat : Type 0 where
  found missing unreadable : Stat

-- What happens around one dispatch.
pub record Env : Type 0 where
  pub stat : Stat
  pub intent_write : Write
  pub call : CallResult
  pub terminal_write : Write
  pub fault_written : Bool

-- The state that dispatches share: the journal, and whether the fault file is there.
pub record Host : Type 0 where
  pub journal : Journal
  pub fault : Bool

unfoldable pub fault_is_open : Stat → Bool
fault_is_open found = true
fault_is_open missing = false
fault_is_open unreadable = true

unfoldable pub clear_audit_fault : Host → Host
clear_audit_fault h = record h { fault = false }

-- `detail.slice(0, n)`, in code units.
unfoldable pub slice_to : ℕ → String → List ℕ
slice_to n s = take n (units s)

pub data Opening : Type 0 where
  blocked : Opening
  refused : DispatchOutput → Opening
  owned : Opening

outcome_name : ToolOutcome → String
outcome_name success = "success"
outcome_name error = "error"
outcome_name indeterminate = "indeterminate"
outcome_name audit_fault = "audit_fault"

-- The outcome of an ended execution, as the journal has it.
unfoldable pub existing_outcome : Option Terminal → ToolOutcome
existing_outcome none = indeterminate
existing_outcome (some t) = t.outcome

unfoldable pub answer_claim : DispatchIntent → Journal → Claim → Opening
unfolding outcome_name
answer_claim i j owner = owned
answer_claim i j integrity = refused (record {
  outcome = error;
  output = template (
      "MCP call was not sent: integrity error — execution '" ∷ i.invocation_id
      ∷ "' is already bound to a different intent" ∷ []);
  invocation_id = i.invocation_id;
})
answer_claim i j in_flight = refused (record {
  outcome = indeterminate;
  output = template (
      "MCP call was not sent again: execution '" ∷ i.invocation_id ∷ "' is already in flight" ∷ []);
  invocation_id = i.invocation_id;
})
answer_claim i j ended =
    let outcome = existing_outcome (has_terminal i.invocation_id j) in
    refused (record {
      outcome = outcome;
      output = template (
          "MCP call was not sent again: execution '"
          ∷ i.invocation_id
          ∷ "' already ended "
          ∷ outcome_name outcome
          ∷ "; result unavailable after restart"
          ∷ []);
      invocation_id = i.invocation_id;
    })

-- The part of `dispatchToolCall` up to the first journal write.
unfoldable pub open_dispatch : Stat → DispatchIntent → Journal → Opening × Journal
open_dispatch stat i j =
    if fault_is_open stat
    then (blocked, j)
    else let (claim, j') = reserve i j in (answer_claim i j claim, j')

-- The write of the intent: `none` says that the call may be sent.
unfoldable pub write_intent : Write → DispatchIntent → Journal → Option DispatchOutput × Journal
write_intent w i j =
    let (failure, j') = append_intent w i j in
    elim failure [
      | none ↦ (none, j')
      | some message ↦ (
        some (record {
          outcome = error;
          output = template ("MCP call was not sent: " ∷ message ∷ []);
          invocation_id = i.invocation_id;
        }),
        release i.invocation_id j',
      )
    ]

module _ (hash : String → String) where
  unfoldable pub finish :
      Write → (fault_written : Bool) → DispatchIntent → ToolOutcome → String → Host → Bool × Host
  finish w fault_written i outcome detail h =
      let (failure, j') =
        append_terminal w
          (record {
            invocation_id = i.invocation_id;
            outcome = outcome;
            output_hash = hash detail;
            detail = slice_to 500 detail;
          })
          h.journal in
      elim failure [
        | none ↦ (true, record { journal = j'; fault = h.fault })
        | some message ↦ (false, record { journal = j'; fault = fault_written || h.fault })
      ]

  -- The part of `dispatchToolCall` after the transport has answered.
  unfoldable pub settle_call :
      Write → (fault_written : Bool) → DispatchIntent → CallResult → Host → DispatchOutput × Host
  settle_call w fault_written i (threw message not_sent) h =
      let outcome = if not_sent then error else indeterminate in
      let (persisted, h') = finish w fault_written i outcome message h in
      (record { outcome = outcome; output = message; invocation_id = i.invocation_id }, h')
  settle_call w fault_written i (answered content is_error) h =
      let outcome = if is_error then error else success in
      let (persisted, h') = finish w fault_written i outcome content h in
      (
        (if persisted
            then record { outcome = outcome; output = content; invocation_id = i.invocation_id }
            else record {
              outcome = audit_fault;
              output = template (
                  content
                  ∷ "\n\nThe remote outcome is known, but its execution record could not be stored. Further MCP calls are blocked until that record is repaired."
                  ∷ []);
              invocation_id = i.invocation_id;
            }),
        h',
      )

  -- The part of `dispatchToolCall` after the id is claimed.
  unfoldable pub send : Env → DispatchIntent → Host → Option DispatchOutput × Host × ℕ
  send env i h =
      let (failed, j) = write_intent env.intent_write i h.journal in
      elim failed [
        | some out ↦ (some out, record h { journal = j }, 0)
        | none ↦
            let (out, h') =
              settle_call env.terminal_write env.fault_written i env.call
                (record h { journal = j }) in
            (some out, h', 1)
      ]

  -- `dispatchToolCall`: `none` says that it throws `AuditFaultBlock`. The last component counts the
  -- requests that it hands to the transport.
  unfoldable pub dispatch_tool_call : Env → DispatchIntent → Host → Option DispatchOutput × Host × ℕ
  dispatch_tool_call env i h =
      let (opening, j) = open_dispatch env.stat i h.journal in
      elim opening [
        | blocked ↦ (none, record h { journal = j }, 0)
        | refused out ↦ (some out, record h { journal = j }, 0)
        | owned ↦ send env i (record h { journal = j })
      ]
