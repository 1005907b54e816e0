-- ===== src/Mcp/Journal/Unresolved.antt =====
-- `terminalizeUnresolved`: every open intent ends as indeterminate, and nothing else changes.
use mini_dsh.Common.{
  String, ◌≡◌, refl, false, ◌&&◌, not, none, some, arith, List, [], ◌∷◌, ◌==◌, if◌then◌else◌,
}
use mini_dsh.Common.Dict
use mini_dsh.Common.Dict.{get-set}
use mini_dsh.Common.Keys
use mini_dsh.Common.Units.{units}
use mini_dsh.Common.Keys.{mem-remove}
use mini_dsh.Mcp.Journal.{
  Journal, Terminal, indeterminate, Write, append_terminal, terminal_written, write_line,
  bind_terminal, has_terminal, recovered, terminalize, terminalize_unresolved, faulted,
}

abbrev pub recovered_terminal : Terminal
recovered_terminal = record {
  outcome = indeterminate;
  detail = units "recovered without a terminal record; the call was not repeated";
}

module _ (hash : String → String) (w : String → Write)
    (writes : (id : String) → (w id).failure ≡ none) where
  one_step :
      (id k : String) (j : Journal)
      → j.poisoned ≡ none
      → let r = append_terminal (w id) (recovered hash id) j in
        (r.0 ≡ none)
        × (r.1.poisoned ≡ none)
        × (Keys.mem k r.1.open_intents ≡ (if id == k then false else Keys.mem k j.open_intents))
        × (Dict.get k r.1.terminals
            ≡ (if id == k then some recovered_terminal else Dict.get k j.terminals))
  unfolding append_terminal terminal_written write_line bind_terminal recovered
  one_step id k j healthy = (
    ground (arith, writes id),
    ground (arith, writes id),
    ground (arith, writes id, mem-remove k id j.open_intents),
    ground (arith, writes id, get-set k id recovered_terminal j.terminals),
  )

  terminalize_all :
      (pending : List String) (k : String) (j : Journal)
      → j.poisoned ≡ none
      → let r = terminalize hash w pending j in
        (r.0 ≡ none)
        × (Keys.mem k r.1.open_intents ≡ (Keys.mem k j.open_intents && not (Keys.mem k pending)))
        × (Dict.get k r.1.terminals
            ≡ (if Keys.mem k pending then some recovered_terminal else Dict.get k j.terminals))
  unfolding terminalize Keys.mem
  terminalize_all [] k j healthy = (refl, ground arith, refl)
  terminalize_all (id ∷ pending) k j healthy =
      let s = one_step id k j healthy in
      let rest = terminalize_all pending k (append_terminal (w id) (recovered hash id) j).1 s.1 in
      (ground (arith, s, rest), ground (arith, s, rest), ground (arith, s, rest))

  -- On a journal that is not faulted, if no write fails, the call throws nothing; afterwards no intent
  -- is open, an id that was open has the indeterminate terminal record, and every other id has the
  -- terminal record that it had.
  pub terminalize_unresolved_lem :
      (j : Journal) (k : String)
      → faulted j ≡ false
      → let r = terminalize_unresolved hash w j in
        (r.0 ≡ none)
        × (Keys.mem k r.1.open_intents ≡ false)
        × (has_terminal k r.1
            ≡ (if Keys.mem k j.open_intents then some recovered_terminal else has_terminal k j))
  unfolding terminalize_unresolved has_terminal faulted
  terminalize_unresolved_lem j k healthy =
      let all = terminalize_all j.open_intents k j (ground arith) in
      (all.0, ground (arith, all.1), all.2)
