-- ===== src/Mcp/Journal/Mirror.antt =====
-- The index in memory mirrors the file: what a crash loses.
use mini_dsh.Common.{
  Option, some, String, ℕ, suc, ◌+◌, String, ◌≡◌, refl, none, arith, List, [], ◌∷◌, ◌++◌, length,
  length-append, All, ◌≢◌, is_some, sym, ◌∙◌, subst, true,
}
use mini_dsh.Mcp.Journal.{
  Journal, Body, Stored, journal_schema, new_journal, remember, DispatchIntent, TerminalRecord,
  Write, reserve, write_line, intent_written, intent_refusal, terminal_written, bad_terminal, other,
  release, bind_intent, bind_terminal, dispatch_intent, terminal, stamp,
}
use mini_dsh.Mcp.Journal.Queue.{
  Client, Call, reserves, intends, ends, releases, settles, queue_append, settle_write,
  settle_first, apply, apply_all, new_client,
}
use mini_dsh.Mcp.Journal.Recovery.{
  Codec, open_journal, replay, IsNumbered, IsPrinted, disk_text, file_text,
}
use mini_dsh.Mcp.Journal.Reopen.{open_journal-file_text}
use mini_dsh.Mcp.Journal.Disk.{IsTornAt, All-append, disk_text_torn}
use mathlib.Core.List.{append_assoc}

pub record Mirrors (j : Journal) : Type 0 where
  pub numbered : IsNumbered 1 j.file
  pub counted : j.seq ≡ length j.file
  pub same_terminals : (replay j.file new_journal).terminals ≡ j.terminals
  pub same_open : (replay j.file new_journal).open_intents ≡ j.open_intents

replay-snoc :
    (file : List Stored) (s : Stored) (j : Journal)
    → replay (file ++ s ∷ []) j
      ≡ remember s.body
          (record (replay file j) { seq = s.seq; file = (replay file j).file ++ s ∷ [] })
unfolding replay
replay-snoc [] s j = refl
replay-snoc (r ∷ file) s j =
    replay-snoc file s (remember r.body (record j { seq = r.seq; file = j.file ++ r ∷ [] }))

remember_seq : (b : Body) (j : Journal) → (remember b j).seq ≡ j.seq
unfolding remember
remember_seq (dispatch_intent i) j = refl
remember_seq _ j = refl

IsNumbered-snoc :
    (n : ℕ) (file : List Stored) (s : Stored)
    → IsNumbered n file
    → s.v ≡ journal_schema
    → s.seq ≡ n + length file
    → IsNumbered n (file ++ s ∷ [])
IsNumbered-snoc n [] s h v e = (v, omega arith, tt)
IsNumbered-snoc n (r ∷ file) s h v e =
    (h.0, h.1, IsNumbered-snoc (n + 1) file s h.2 v (omega arith))

replay_seq_from :
    (n : ℕ) (file : List Stored) (j : Journal)
    → IsNumbered (suc n) file
    → j.seq ≡ n
    → (replay file j).seq ≡ n + length file
unfolding replay remember
replay_seq_from n [] j h e = omega arith
replay_seq_from n (s ∷ file) j h e =
    let later = remember s.body (record j { seq = s.seq; file = j.file ++ s ∷ [] }) in
    let kept = remember_seq s.body (record j { seq = s.seq; file = j.file ++ s ∷ [] }) in
    replay_seq_from (suc n) file later (subst (λ k. IsNumbered k file) (omega arith) h.2)
      (kept ∙ omega arith)
    ∙ omega arith

replay-seq : (file : List Stored) → IsNumbered 1 file → (replay file new_journal).seq ≡ length file
unfolding new_journal
replay-seq file h = replay_seq_from 0 file new_journal h refl ∙ omega arith

-- A successful append, with what the caller then binds.
write_line-Mirrors_intent :
    (w : Write) (i : DispatchIntent) (j : Journal)
    → Mirrors j
    → (write_line w (dispatch_intent i) j).0 ≡ none
    → Mirrors (bind_intent i (write_line w (dispatch_intent i) j).1)
unfolding write_line bind_intent remember
write_line-Mirrors_intent w i j m e =
    let s = stamp w (dispatch_intent i) (j.seq + 1) in
    let same = replay-snoc j.file s new_journal in
    record {
      numbered = ground (arith, IsNumbered-snoc 1 j.file s m.numbered);
      counted = ground (arith, length-append j.file (s ∷ []));
      same_terminals = ground (arith, same);
      same_open = ground (arith, same);
    }

write_line-Mirrors_terminal :
    (w : Write) (r : TerminalRecord) (j : Journal)
    → Mirrors j
    → (write_line w (terminal r) j).0 ≡ none
    → Mirrors (bind_terminal r (write_line w (terminal r) j).1)
unfolding write_line bind_terminal remember
write_line-Mirrors_terminal w r j m e =
    let s = stamp w (terminal r) (j.seq + 1) in
    let same = replay-snoc j.file s new_journal in
    record {
      numbered = ground (arith, IsNumbered-snoc 1 j.file s m.numbered);
      counted = ground (arith, length-append j.file (s ∷ []));
      same_terminals = ground (arith, same);
      same_open = ground (arith, same);
    }

-- A write that throws leaves all but the fault and what it has left as it was.
write_line_failed-Mirrors :
    (w : Write) (b : Body) (j : Journal)
    → Mirrors j
    → is_some (write_line w b j).0 ≡ true
    → Mirrors (write_line w b j).1
unfolding write_line
write_line_failed-Mirrors w b j m e = ground (arith)

settle_write-Mirrors :
    (w : Write) (b : Body) (j : Journal) → Mirrors j → Mirrors (settle_write w b j)
unfolding settle_write intent_written terminal_written
settle_write-Mirrors w (dispatch_intent i) j m =
    ground (
      arith,
      write_line-Mirrors_intent w i j m,
      write_line_failed-Mirrors w (dispatch_intent i) j m,
    )
settle_write-Mirrors w (terminal r) j m =
    ground
      (arith, write_line-Mirrors_terminal w r j m, write_line_failed-Mirrors w (terminal r) j m)
settle_write-Mirrors w (bad_terminal id) j m = m
settle_write-Mirrors w other j m = m

queue_append-journal :
    (refusal : Option String) (b : Body) (c : Client)
    → (queue_append refusal b c).journal ≡ c.journal
unfolding queue_append
queue_append-journal none b c = refl
queue_append-journal (some message) b c = refl

settle_first-Mirrors :
    (w : Write) (queue : List Body) (c : Client)
    → Mirrors c.journal
    → Mirrors (settle_first w queue c).journal
unfolding settle_first
settle_first-Mirrors w [] c m = m
settle_first-Mirrors w (b ∷ queue) c m = settle_write-Mirrors w b c.journal m

apply-Mirrors : (call : Call) (c : Client) → Mirrors c.journal → Mirrors (apply call c).journal
unfolding apply reserve release
apply-Mirrors (reserves i) c m = ground arith
apply-Mirrors (intends i) c m =
    rw (queue_append-journal (intent_refusal i c.journal) (dispatch_intent i) c) m
apply-Mirrors (ends r) c m = rw (queue_append-journal c.journal.poisoned (terminal r) c) m
apply-Mirrors (releases id) c m = ground arith
apply-Mirrors (settles w) c m = settle_first-Mirrors w c.queue c m

apply_all-Mirrors :
    (calls : List Call) (c : Client) → Mirrors c.journal → Mirrors (apply_all calls c).journal
unfolding apply_all
apply_all-Mirrors [] c m = m
apply_all-Mirrors (call ∷ calls) c m =
    apply_all-Mirrors calls (apply call c) (apply-Mirrors call c m)

new_journal-Mirrors : Mirrors new_journal
unfolding new_journal replay
new_journal-Mirrors = record {
  numbered = tt;
  counted = refl;
  same_terminals = refl;
  same_open = refl;
}

-- After any calls on a new journal, whose writes end in the order of the calls, and some of which
-- fail, but leave nothing, or behind all lines a text without a newline, and a crash that may add
-- another such text, if JSON prints and parses each record: `open` throws nothing, finds the sequence
-- number, the terminal records and the open intents that the journal had in memory, and leaves the
-- complete lines in the file.
pub reopen_after_crash :
    (codec : Codec) (calls : List Call) (tail : List ℕ)
    → All (IsPrinted codec) (apply_all calls new_client).journal.file
    → All
        (IsTornAt codec (length (apply_all calls new_client).journal.file))
        (apply_all calls new_client).journal.leftovers
    → All (λ c. c ≢ 10) tail
    → let j = (apply_all calls new_client).journal in
      let r = open_journal codec (disk_text codec j ++ tail) in
      (r.0 ≡ none)
      × (r.1.seq ≡ j.seq)
      × (r.1.terminals ≡ j.terminals)
      × (r.1.open_intents ≡ j.open_intents)
      × (r.2 ≡ file_text codec j.file)
reopen_after_crash codec calls tail p l t =
    let j = (apply_all calls new_client).journal in
    let m : Mirrors j =
      apply_all-Mirrors calls new_client (unfold new_client in new_journal-Mirrors) in
    let (torn, same, whole) = disk_text_torn codec j l in
    rw (same, append_assoc (file_text codec j.file) torn tail)
      (rw
        (open_journal-file_text codec j.file (torn ++ tail) p m.numbered
          (All-append torn tail whole t))
        (refl, replay-seq j.file m.numbered ∙ sym m.counted, m.same_terminals, m.same_open, refl))
