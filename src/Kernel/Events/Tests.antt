-- ===== src/Kernel/Events/Tests.antt =====
-- A listener of `once`, and two dispatches that run side by side.
use mini_dsh.Common.Ids.{mem, count}
use mini_dsh.Common.{◌+◌, ◌≤◌, ◌≡◌, refl, true, false, List, [], ◌∷◌}
use mini_dsh.Common.Dict
use mini_dsh.Kernel.Events.{
  EventBus, new_bus, on, dispose, snapshot, put_back, take_next, call_listener, remove_record,
  splice_record, Happening, registers, dispatches, calls_next, happen, history,
}
use mini_dsh.Kernel.Events.Quiet.{all_due, quiet_lem}

-- The second dispatch begins before the first has called the listener.
abbrev side_by_side : List Happening
side_by_side =
    registers "turn/end" true false
    ∷ dispatches "turn/end"
    ∷ dispatches "turn/end"
    ∷ calls_next "turn/end" 0
    ∷ []

abbrev called_once : EventBus
called_once = history side_by_side new_bus

abbrev after : List Happening
after = calls_next "turn/end" 1 ∷ dispatches "turn/end" ∷ calls_next "turn/end" 2 ∷ []

once_runs_twice : (history after called_once).calls ≡ 0 ∷ 0 ∷ []
unfolding history happen on Dict.get Dict.set dispose snapshot put_back take_next call_listener mem
    remove_record splice_record
once_runs_twice = refl

is_disposed : mem 0 called_once.disposed ≡ true
unfolding history happen on Dict.get Dict.set dispose snapshot put_back take_next call_listener mem
    remove_record splice_record
is_disposed = refl

quiet_lem_example :
    let c = history after called_once in
    (mem 0 c.disposed ≡ true)
    × (count 0 c.calls + all_due 0 c.running
        ≤ count 0 called_once.calls + all_due 0 called_once.running)
quiet_lem_example = quiet_lem 0 after called_once is_disposed
