-- ===== src/Kernel/Fiber/Tests.antt =====
-- A fiber with two effects.
use mini_dsh.Common.Ids.{mem, count}
use mini_dsh.Common.{◌+◌, ◌≡◌, refl, true, false, List, [], ◌∷◌, ◌++◌, reverse, ltb, if◌then◌else◌}
use mini_dsh.Kernel.Fiber.{
  Fiber, new_fiber, active, disposed, takes_effects, effect, remove_first, tear_down, pop_from, pop,
  unload_next, is_gone, dispose, resume, Happening, effects, tears_down, disposes, resumes, assigns,
  happen, history,
}
use mini_dsh.Kernel.Fiber.Disposal.{settlements, dispose_lem}
use mini_dsh.Kernel.Fiber.Runs.{late, runs_lem}

abbrev mounted : Fiber
mounted = record {
  state = active;
  disposers = 0 ∷ 1 ∷ [];
  effect_metas = "ctx.on" ∷ "ctx.provide" ∷ [];
  next_id = 2;
  settled = [];
  ran = [];
  awaits = false;
}

dispose_lem_example :
    let g = history (settlements 2) (dispose mounted) in
    (g.state ≡ disposed)
    × (g.disposers ≡ [])
    × (g.effect_metas ≡ [])
    × (g.ran ≡ [] ++ reverse (0 ∷ 1 ∷ []))
unfolding is_gone
dispose_lem_example = dispose_lem mounted refl

-- The returned disposer of the first effect is called after the fiber was disposed.
abbrev late_call : List Happening
late_call =
    effects "ctx.provide" true ∷ assigns active ∷ disposes ∷ resumes true ∷ tears_down 0 ∷ []

late_call_runs_twice : (history late_call new_fiber).ran ≡ 0 ∷ 0 ∷ []
unfolding history happen effect takes_effects dispose is_gone unload_next pop pop_from resume
    tear_down mem remove_first
late_call_runs_twice = refl

-- The first disposer throws, and the other one never runs.
abbrev throwing : List Happening
throwing = effects "a" true ∷ effects "b" true ∷ disposes ∷ resumes false ∷ disposes ∷ []

throwing_stops : (history throwing new_fiber).ran ≡ 1 ∷ []
unfolding history happen effect takes_effects dispose is_gone unload_next pop pop_from resume
throwing_stops = refl

runs_lem_example :
    let f = history late_call new_fiber in
    count 0 f.ran + count 0 f.disposers
    ≡ (if ltb 0 f.next_id then 1 else 0) + late 0 late_call new_fiber
runs_lem_example = runs_lem 0 late_call
