-- ===== src/Mcp/Journal.antt =====
-- harness/mcp/execution-journal.ts. What an `await` of the file system returns is an argument of the
-- call (`Write`). The text that `stable` builds from the six fields of a key is represented by the
-- fields themselves. JSON and the hash are parameters, in the child `Recovery`.
mod Claiming
pub mod Claims
pub mod Log
pub mod Queue
pub mod Mirror
pub mod Unresolved
pub mod Recovery
pub mod Reopen
pub mod Disk
pub mod Tests
unfoldable pub use Claiming.*
use mini_dsh.Common.{
  ℕ, ◌+◌, String, Bool, false, ◌&&◌, ◌||◌, Option, none, some, List, [], ◌∷◌, ◌++◌, ◌==◌, eqb, not,
  if◌then◌else◌, is_some, template, length,
}
use mini_dsh.Common.Dict
use mini_dsh.Common.Dict.{Dict}
use mini_dsh.Common.Keys
use mini_dsh.Common.Units.{units}

-- What the clock, the ownership check, the write, the sync and the close answer to one append: the
-- time, the message of the error that was thrown, if one was, and how many units of the line are in
-- the file then. An append that throws may have left nothing, a part or the whole line.
pub record Write : Type 0 where
  pub at : ℕ
  pub failure : Option String
  pub left : ℕ

unfoldable pub stamp : Write → Body → ℕ → Stored
stamp w body seq = record { v = journal_schema; seq = seq; at = w.at; body = body }

-- `append` checks `poisoned` when it is called and then queues its write, so that a write that is
-- queued when another one fails is still made. This is the queued write with its settlement; the
-- first component is the message of the error that the call throws.
unfoldable pub write_line : Write → Body → Journal → Option String × Journal
unfolding stamp
write_line w body j =
    let line = stamp w body (j.seq + 1) in
    elim w.failure [
      | some message ↦ (
        some message,
        record j {
          poisoned = some message;
          leftovers =
              j.leftovers ++ record { behind = length j.file; line = line; units = w.left } ∷ [];
        },
      )
      | none ↦ (none, record j { seq = j.seq + 1; file = j.file ++ line ∷ [] })
    ]

unfoldable pub bind_intent : DispatchIntent → Journal → Journal
bind_intent i j = record j {
  intent_keys = Dict.set i.invocation_id (intent_key i) j.intent_keys;
  open_intents = Keys.add i.invocation_id j.open_intents;
}

-- The error that `appendIntent` throws at its call.
unfoldable pub intent_refusal : DispatchIntent → Journal → Option String
intent_refusal i j =
    if key_conflict (Dict.get i.invocation_id j.intent_keys) (intent_key i)
    then some (
        template
          ("execution '" ∷ i.invocation_id ∷ "' is already bound to a different intent" ∷ []))
    else j.poisoned

-- `appendIntent` behind its `await`.
unfoldable pub intent_written : Write → DispatchIntent → Journal → Option String × Journal
unfolding write_line bind_intent
intent_written w i j =
    let (failure, j') = write_line w (dispatch_intent i) j in
    (failure, (if is_some failure then j' else bind_intent i j'))

-- `appendIntent` where nothing else happens between its call and its settlement.
unfoldable pub append_intent : Write → DispatchIntent → Journal → Option String × Journal
unfolding intent_refusal intent_written
append_intent w i j = elim (intent_refusal i j) [
  | some message ↦ (some message, j)
  | none ↦ intent_written w i j
]

unfoldable pub bind_terminal : TerminalRecord → Journal → Journal
bind_terminal r j = record j {
  open_intents = Keys.remove r.invocation_id j.open_intents;
  reserved = Keys.remove r.invocation_id j.reserved;
  live_terminals = Keys.add r.invocation_id j.live_terminals;
  terminals =
      Dict.set r.invocation_id (record { outcome = r.outcome; detail = r.detail }) j.terminals;
}

-- `appendTerminal` behind its `await`.
unfoldable pub terminal_written : Write → TerminalRecord → Journal → Option String × Journal
unfolding write_line bind_terminal
terminal_written w r j =
    let (failure, j') = write_line w (terminal r) j in
    (failure, (if is_some failure then j' else bind_terminal r j'))

-- `appendTerminal` where nothing else happens between its call and its settlement.
unfoldable pub append_terminal : Write → TerminalRecord → Journal → Option String × Journal
unfolding terminal_written
append_terminal w r j = elim j.poisoned [
  | some message ↦ (some message, j)
  | none ↦ terminal_written w r j
]

unfoldable pub release : String → Journal → Journal
release id j =
    if not (Keys.mem id j.open_intents) && not (Dict.has id j.terminals)
    then record j {
      reserved = Keys.remove id j.reserved;
      intent_keys = Dict.delete id j.intent_keys;
    }
    else j

-- The record that closes an intent found without a terminal one.
unfoldable pub recovered : (hash : String → String) → String → TerminalRecord
recovered hash id = record {
  invocation_id = id;
  outcome = indeterminate;
  output_hash = hash "unresolved";
  detail = units "recovered without a terminal record; the call was not repeated";
}

-- The loop of `terminalizeUnresolved`, with no other call of the journal between its rounds; it stops
-- at the first append that throws.
unfoldable pub terminalize :
    (hash : String → String) → (String → Write) → List String → Journal → Option String × Journal
terminalize hash w [] j = (none, j)
terminalize hash w (id ∷ pending) j =
    let (failure, j') = append_terminal (w id) (recovered hash id) j in
    let rest = terminalize hash w pending j' in if is_some failure then (failure, j') else rest

unfoldable pub terminalize_unresolved :
    (hash : String → String) → (String → Write) → Journal → Option String × Journal
terminalize_unresolved hash w j = terminalize hash w j.open_intents j

-- A committed line's effect on the index.
unfoldable pub remember : Body → Journal → Journal
remember (dispatch_intent i) j = record j {
  open_intents = Keys.add i.invocation_id j.open_intents;
  intent_keys = Dict.set i.invocation_id (intent_key i) j.intent_keys;
}
remember (terminal r) j = record j {
  open_intents = Keys.remove r.invocation_id j.open_intents;
  terminals =
      Dict.set r.invocation_id (record { outcome = r.outcome; detail = r.detail }) j.terminals;
}
remember (bad_terminal id) j = record j { open_intents = Keys.remove id j.open_intents }
remember other j = j
