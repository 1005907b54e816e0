-- ===== src/Mcp/Journal/Claiming.antt =====
-- harness/mcp/execution-journal.ts: the journal in memory, and `reserve`.
use mini_dsh.Common.{
  ℕ, String, Bool, false, ◌&&◌, ◌||◌, Option, none, some, List, [], ◌==◌, eqb, not, if◌then◌else◌,
  is_some,
}
use mini_dsh.Common.Dict
use mini_dsh.Common.Dict.{Dict}
use mini_dsh.Common.Keys

pub data ToolOutcome : Type 0 where
  success error indeterminate audit_fault : ToolOutcome

pub record DispatchIntent : Type 0 where
  pub invocation_id : String
  pub workspace_id : String
  pub server : String
  pub tool : String
  pub args_hash : String
  pub generation : ℕ
  pub epoch : ℕ
  pub config_revision : ℕ
  pub secret_revision : ℕ
  pub policy_revision : Option ℕ

-- `detail` is a list of code units, since it may be cut between the two of a character.
pub record TerminalRecord : Type 0 where
  pub invocation_id : String
  pub outcome : ToolOutcome
  pub output_hash : String
  pub detail : List ℕ

-- The body of a line. `bad_terminal` is a terminal line whose outcome is none of the four, and
-- `other` a line of another kind or with no invocation id; only a foreign file holds them.
pub data Body : Type 0 where
  dispatch_intent : DispatchIntent → Body
  terminal : TerminalRecord → Body
  bad_terminal : String → Body
  other : Body

-- A line of the file without its digest, which is computed from the rest (`Recovery`).
pub record Stored : Type 0 where
  pub v : ℕ
  pub seq : ℕ
  pub at : ℕ
  pub body : Body

pub record IntentKey : Type 0 where
  pub workspace_id : String
  pub server : String
  pub tool : String
  pub args_hash : String
  pub config_revision : ℕ
  pub secret_revision : ℕ

pub record Terminal : Type 0 where
  pub outcome : ToolOutcome
  pub detail : List ℕ

-- What a write that failed has left of its line: its first units, newline included, behind so many
-- lines of other writes.
pub record Leftover : Type 0 where
  pub behind : ℕ
  pub line : Stored
  pub units : ℕ

-- `file` lists the records whose writes have succeeded, oldest first, and `leftovers` what stands
-- between them.
pub record Journal : Type 0 where
  pub poisoned : Option String
  pub seq : ℕ
  pub terminals : Dict Terminal
  pub open_intents : List String
  pub intent_keys : Dict IntentKey
  pub reserved : List String
  pub live_terminals : List String
  pub file : List Stored
  pub leftovers : List Leftover

abbrev pub journal_schema : ℕ
journal_schema = 1

unfoldable pub new_journal : Journal
new_journal = record {
  poisoned = none;
  seq = 0;
  terminals = [];
  open_intents = [];
  intent_keys = [];
  reserved = [];
  live_terminals = [];
  file = [];
  leftovers = [];
}

unfoldable pub faulted : Journal → Bool
faulted j = is_some j.poisoned

unfoldable pub intent_key : DispatchIntent → IntentKey
intent_key i = record {
  workspace_id = i.workspace_id;
  server = i.server;
  tool = i.tool;
  args_hash = i.args_hash;
  config_revision = i.config_revision;
  secret_revision = i.secret_revision;
}

unfoldable pub same_key : IntentKey → IntentKey → Bool
same_key a b =
    a.workspace_id == b.workspace_id
    && a.server == b.server
    && a.tool == b.tool
    && a.args_hash == b.args_hash
    && eqb a.config_revision b.config_revision
    && eqb a.secret_revision b.secret_revision

-- `known !== undefined && known !== key`.
unfoldable pub key_conflict : Option IntentKey → IntentKey → Bool
key_conflict none key = false
key_conflict (some known) key = not (same_key known key)

pub data Claim : Type 0 where
  owner in_flight ended integrity : Claim

unfoldable pub has_terminal : String → Journal → Option Terminal
has_terminal id j = Dict.get id j.terminals

unfoldable pub terminal_written_here : String → Journal → Bool
terminal_written_here id j = Keys.mem id j.live_terminals

unfoldable pub reserve : DispatchIntent → Journal → Claim × Journal
reserve i j =
    let id = i.invocation_id in
    if key_conflict (Dict.get id j.intent_keys) (intent_key i)
    then (integrity, j)
    else if Dict.has id j.terminals
    then (ended, j)
    else if Keys.mem id j.reserved || Keys.mem id j.open_intents
    then (in_flight, j)
    else (
      owner,
      record j {
        reserved = Keys.add id j.reserved;
        intent_keys = Dict.set id (intent_key i) j.intent_keys;
      },
    )
