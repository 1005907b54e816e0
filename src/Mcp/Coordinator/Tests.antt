-- ===== src/Mcp/Coordinator/Tests.antt =====
-- The theorems on dispatches at concrete inputs.
use mini_dsh.Common.{◌≤◌, String, ◌≡◌, refl, true, false, some, List, [], ◌∷◌, ◌||◌, arith}
use mini_dsh.Common.Keys
use mini_dsh.Mcp.Journal.{DispatchIntent, success, new_journal, faulted, has_terminal}
use mini_dsh.Mcp.Journal.Log.{logged}
use mini_dsh.Mcp.Journal.Tests.{call_1, written, disk_full, runs}
use mini_dsh.Mcp.Coordinator.{
  Env, Host, DispatchOutput, answered, threw, missing, dispatch_tool_call, send, open_dispatch,
  write_intent, settle_call, finish, fault_is_open, answer_claim, slice_to,
}
use mini_dsh.Mcp.Coordinator.Outcomes.{dispatch_persisted, dispatch_lost, lost_outcome_of}
use mini_dsh.Mcp.Coordinator.System.{
  Action, begin, intent_settled, call_settled, terminal_settled, claim_released, run, start, step,
  pick, begin_dispatch, ask_intent, settle_intent, release_claim, ending_of, ask_terminal,
  settle_answer, terminal_of, settle_ending,
}
use mini_dsh.Mcp.Coordinator.Interleaving.{send_at_most_once, send_after_intent}

dispatches : Unit {0}
unfolding runs dispatch_tool_call send open_dispatch write_intent settle_call finish fault_is_open
    answer_claim slice_to run start step pick begin_dispatch ask_intent settle_intent release_claim
    ending_of ask_terminal settle_answer terminal_of settle_ending Keys.count
dispatches = tt

abbrev hash : String → String
hash s = s

abbrev quiet : Env
quiet = record {
  stat = missing;
  intent_write = written;
  call = answered "42" false;
  terminal_write = written;
  fault_written = true;
}

abbrev full_disk : Env
full_disk = record quiet { call = threw "socket closed" false; terminal_write = disk_full }

abbrev host : Host
host = record { journal = new_journal; fault = false }

dispatch_persisted_example :
    let r = dispatch_tool_call hash quiet call_1 host in
    (r.0 ≡ some (record { outcome = success; output = "42"; invocation_id = "call-1" }))
    × (has_terminal "call-1" r.1.journal
        ≡ some (record { outcome = success; detail = slice_to 500 "42" }))
    × (r.1.fault ≡ false)
unfolding dispatches
dispatch_persisted_example = dispatch_persisted hash quiet call_1 host refl refl

dispatch_lost_example :
    let r = dispatch_tool_call hash full_disk call_1 host in
    (out : DispatchOutput) × (r.0 ≡ some out)
    × (faulted r.1.journal ≡ true)
    × (out.outcome ≡ lost_outcome_of full_disk.call)
    × (r.1.fault ≡ (true || false))
unfolding dispatches
dispatch_lost_example = dispatch_lost hash full_disk call_1 host refl (ground arith)

-- Two dispatches of one invocation id overlap, and the second is refused. The terminal record of the
-- first is queued when the intent of another one fails, and is written all the same.
abbrev call_2 : DispatchIntent
call_2 = record call_1 { invocation_id = "call-2" }

abbrev actions : List Action
actions =
    begin missing call_1
    ∷ begin missing call_1
    ∷ intent_settled 0 written
    ∷ begin missing call_2
    ∷ call_settled 0 (answered "42" false)
    ∷ intent_settled 0 disk_full
    ∷ terminal_settled 0 written
    ∷ claim_released 0
    ∷ begin missing call_1
    ∷ begin missing call_2
    ∷ []

sent_once : (run hash actions (start new_journal)).sent ≡ "call-1" ∷ []
unfolding dispatches
sent_once = refl

terminal_stored :
    has_terminal "call-1" (run hash actions (start new_journal)).host.journal
    ≡ some (record { outcome = success; detail = slice_to 500 "42" })
unfolding dispatches
terminal_stored = refl

send_at_most_once_example : Keys.count "call-1" (run hash actions (start new_journal)).sent ≤ 1
send_at_most_once_example = send_at_most_once hash new_journal actions "call-1"

send_after_intent_example :
    logged "call-1" (run hash actions (start new_journal)).host.journal.file ≡ true
unfolding dispatches
send_after_intent_example = send_after_intent hash new_journal actions "call-1" (omega arith)
