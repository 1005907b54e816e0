-- ===== src/Mcp/Journal/Claims.antt =====
-- Which invocation ids are claimed, and how each operation changes the claims.
use mini_dsh.Common.{◌≢◌, String, ◌≡◌, Bool, true, false, ◌||◌, none, arith, eq_iff, is_some, ◌==◌}
use mini_dsh.Common.Dict
use mini_dsh.Common.Dict.{get-set, get-delete}
use mini_dsh.Common.Keys
use mini_dsh.Common.Keys.{mem-add, mem-remove}
use mini_dsh.Mcp.Journal.{
  Journal, DispatchIntent, TerminalRecord, Write, owner, reserve, write_line, intent_written,
  terminal_written, bind_intent, bind_terminal, release,
}

-- Reserved in this process, opened in the file, or ended.
unfoldable pub claimed : String → Journal → Bool
claimed id j = Keys.mem id j.reserved || Keys.mem id j.open_intents || Dict.has id j.terminals

pub reserve_fresh :
    (i : DispatchIntent) (j : Journal) → (reserve i j).0 ≡ owner → claimed i.invocation_id j ≡ false
unfolding reserve claimed
reserve_fresh i j h = ground arith

pub claimed-reserve :
    (id : String) (i : DispatchIntent) (j : Journal)
    → (reserve i j).0 ≡ owner
    → claimed id (reserve i j).1 ≡ (i.invocation_id == id || claimed id j)
unfolding reserve claimed
claimed-reserve id i j h = ground (arith, mem-add id i.invocation_id j.reserved)

pub claimed-intent_written :
    (id : String) (w : Write) (i : DispatchIntent) (j : Journal)
    → (intent_written w i j).0 ≡ none
    → claimed id (intent_written w i j).1 ≡ (i.invocation_id == id || claimed id j)
unfolding intent_written write_line bind_intent claimed
claimed-intent_written id w i j h = ground (arith, mem-add id i.invocation_id j.open_intents)

pub claimed-intent_written_failed :
    (id : String) (w : Write) (i : DispatchIntent) (j : Journal)
    → is_some (intent_written w i j).0 ≡ true
    → claimed id (intent_written w i j).1 ≡ claimed id j
unfolding intent_written write_line bind_intent claimed
claimed-intent_written_failed id w i j h = ground arith

pub claimed-terminal_written :
    (id : String) (w : Write) (r : TerminalRecord) (j : Journal)
    → claimed id j ≡ true
    → claimed id (terminal_written w r j).1 ≡ true
unfolding terminal_written write_line bind_terminal claimed
claimed-terminal_written id w r j h = ground (
  arith,
  mem-remove id r.invocation_id j.open_intents,
  mem-remove id r.invocation_id j.reserved,
  get-set id r.invocation_id (record { outcome = r.outcome; detail = r.detail }) j.terminals,
)

pub claimed-release :
    (id k : String) (j : Journal) → (k == id) ≡ false → claimed id (release k j) ≡ claimed id j
unfolding release claimed
claimed-release id k j h = ground (arith, mem-remove id k j.reserved, eq_iff k id)

-- A refused claim changes nothing.
pub reserve_refused :
    (i : DispatchIntent) (j : Journal) → (reserve i j).0 ≢ owner → (reserve i j).1 ≡ j
unfolding reserve
reserve_refused i j h = ground arith
