-- ===== src/Mcp/Journal/Log.antt =====
-- The records whose writes have succeeded: no operation loses one, and a written intent is one.
use mini_dsh.Common.{
  String, ◌≡◌, refl, Bool, true, false, ◌||◌, none, arith, ◌==◌, List, [], ◌∷◌, ◌++◌, ◌+◌, eq_refl,
}
use mini_dsh.Mcp.Journal.{
  Journal, DispatchIntent, TerminalRecord, Write, reserve, write_line, intent_written,
  terminal_written, bind_intent, bind_terminal, release, Body, dispatch_intent, terminal,
  bad_terminal, other, Stored,
}

unfoldable pub is_intent : String → Body → Bool
is_intent id (dispatch_intent i) = i.invocation_id == id
is_intent id (terminal r) = false
is_intent id (bad_terminal k) = false
is_intent id other = false

unfoldable pub logged : String → List Stored → Bool
logged id [] = false
logged id (s ∷ file) = is_intent id s.body || logged id file

logged-snoc :
    (id : String) (file : List Stored) (s : Stored)
    → logged id (file ++ s ∷ []) ≡ (is_intent id s.body || logged id file)
unfolding logged
logged-snoc id [] s = refl
logged-snoc id (r ∷ file) s = ground (arith, logged-snoc id file s)

pub logged-reserve :
    (id : String) (i : DispatchIntent) (j : Journal)
    → logged id (reserve i j).1.file ≡ logged id j.file
unfolding reserve
logged-reserve id i j = ground arith

pub logged-write_line :
    (id : String) (w : Write) (b : Body) (j : Journal)
    → logged id j.file ≡ true
    → logged id (write_line w b j).1.file ≡ true
unfolding write_line
logged-write_line id w b j h =
    ground (arith, logged-snoc id j.file (record { v = 1; seq = j.seq + 1; at = w.at; body = b }))

pub logged-intent_written :
    (id : String) (w : Write) (i : DispatchIntent) (j : Journal)
    → logged id j.file ≡ true
    → logged id (intent_written w i j).1.file ≡ true
unfolding intent_written bind_intent
logged-intent_written id w i j h = ground (arith, logged-write_line id w (dispatch_intent i) j)

pub logged-intent_written_self :
    (w : Write) (i : DispatchIntent) (j : Journal)
    → (intent_written w i j).0 ≡ none
    → logged i.invocation_id (intent_written w i j).1.file ≡ true
unfolding intent_written bind_intent write_line is_intent
logged-intent_written_self w i j h = ground (
  arith,
  eq_refl i.invocation_id,
  logged-snoc i.invocation_id j.file
      (record { v = 1; seq = j.seq + 1; at = w.at; body = dispatch_intent i }),
)

pub logged-terminal_written :
    (id : String) (w : Write) (r : TerminalRecord) (j : Journal)
    → logged id j.file ≡ true
    → logged id (terminal_written w r j).1.file ≡ true
unfolding terminal_written bind_terminal
logged-terminal_written id w r j h = ground (arith, logged-write_line id w (terminal r) j)

pub logged-release : (id k : String) (j : Journal) → logged id (release k j).file ≡ logged id j.file
unfolding release
logged-release id k j = ground arith
