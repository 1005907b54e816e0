-- ===== src/Mcp/Journal/Queue.antt =====
-- The journal with its queue of appends, and the calls of its clients.
use mini_dsh.Common.{Option, some, String, String, none, List, [], ◌∷◌, ◌++◌}
use mini_dsh.Mcp.Journal.{
  Journal, Body, new_journal, DispatchIntent, TerminalRecord, Write, reserve, intent_written,
  intent_refusal, terminal_written, bad_terminal, other, release, dispatch_intent, terminal,
}

-- The journal with its queue of appends: each one was accepted by its call and waits for its write.
pub record Client : Type 0 where
  pub journal : Journal
  pub queue : List Body

-- The calls of the journal's clients, and the end of the first write in the queue.
pub data Call : Type 0 where
  reserves : DispatchIntent → Call
  intends : DispatchIntent → Call
  ends : TerminalRecord → Call
  releases : String → Call
  settles : Write → Call

unfoldable pub queue_append : Option String → Body → Client → Client
queue_append (some refusal) body c = c
queue_append none body c = record c { queue = c.queue ++ body ∷ [] }

unfoldable pub settle_write : Write → Body → Journal → Journal
unfolding intent_written terminal_written
settle_write w (dispatch_intent i) j = (intent_written w i j).1
settle_write w (terminal r) j = (terminal_written w r j).1
settle_write w (bad_terminal id) j = j
settle_write w other j = j

unfoldable pub settle_first : Write → List Body → Client → Client
unfolding settle_write
settle_first w [] c = c
settle_first w (body ∷ queue) c = record { journal = settle_write w body c.journal; queue = queue }

unfoldable pub apply : Call → Client → Client
unfolding reserve intent_refusal release queue_append settle_first
apply (reserves i) c = record c { journal = (reserve i c.journal).1 }
apply (intends i) c = queue_append (intent_refusal i c.journal) (dispatch_intent i) c
apply (ends r) c = queue_append c.journal.poisoned (terminal r) c
apply (releases id) c = record c { journal = release id c.journal }
apply (settles w) c = settle_first w c.queue c

unfoldable pub apply_all : List Call → Client → Client
apply_all [] c = c
apply_all (call ∷ calls) c = apply_all calls (apply call c)

unfoldable pub new_client : Client
new_client = record { journal = new_journal; queue = [] }
