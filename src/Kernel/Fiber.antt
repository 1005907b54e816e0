-- ===== src/Kernel/Fiber.antt =====
-- kernel/fiber.ts: the effects of one plugin instance and their disposal. A disposer is known by the
-- number of its effect, and what it does is outside the model, except whether it throws.
use mini_dsh.Common.Ids.{mem}
use mini_dsh.Common.{
  ℕ, suc, ◌+◌, Bool, true, false, Option, none, some, List, [], ◌∷◌, ◌++◌, String, eqb,
  if◌then◌else◌, any, ltb,
}
mod Disposal
mod Runs
mod Tests

pub data FiberState : Type 0 where
  pending : FiberState
  loading : FiberState
  active : FiberState
  unloading : FiberState
  disposed : FiberState
  failed : FiberState

-- `settled` holds the effects whose returned disposer was called, `ran` the runs of all disposers in
-- their order, and `awaits` tells that `dispose` waits for a disposer.
pub record Fiber : Type 0 where
  pub state : FiberState
  pub disposers : List ℕ
  pub effect_metas : List String
  pub next_id : ℕ
  pub settled : List ℕ
  pub ran : List ℕ
  pub awaits : Bool

abbrev pub new_fiber : Fiber
new_fiber = record {
  state = pending;
  disposers = [];
  effect_metas = [];
  next_id = 0;
  settled = [];
  ran = [];
  awaits = false;
}

-- What `effect` answers: an error for the state, the error of the body, or the returned disposer.
pub data Registration : Type 0 where
  refused : Registration
  threw : Registration
  registered : ℕ → Registration

unfoldable pub takes_effects : FiberState → Bool
takes_effects pending = true
takes_effects loading = true
takes_effects active = true
takes_effects unloading = false
takes_effects disposed = false
takes_effects failed = false

-- `effect`, whose body returns a disposer or not.
unfoldable pub effect : String → Bool → Fiber → Registration × Fiber
unfolding takes_effects
effect label returns f =
    if takes_effects f.state
    then (if returns
        then (
          registered f.next_id,
          record f {
            disposers = f.disposers ++ f.next_id ∷ [];
            effect_metas = f.effect_metas ++ label ∷ [];
            next_id = suc f.next_id;
          },
        )
        else (threw, f))
    else (refused, f)

-- `indexOf` and `splice`.
unfoldable pub remove_first : ℕ → List ℕ → List ℕ
remove_first id [] = []
remove_first id (x ∷ ids) = let rest = remove_first id ids in if eqb x id then ids else x ∷ rest

-- A call of the disposer that `effect` returned.
unfoldable pub tear_down : ℕ → Fiber → Fiber
unfolding mem remove_first
tear_down id f = if mem id f.settled then f else record f {
  settled = id ∷ f.settled;
  disposers = remove_first id f.disposers;
  ran = f.ran ++ id ∷ [];
}

-- `pop`: the list without its last element, and that.
unfoldable pub pop_from : ℕ → List ℕ → List ℕ × ℕ
pop_from x [] = ([], x)
pop_from x (y ∷ ids) = let (rest, last) = pop_from y ids in (x ∷ rest, last)

unfoldable pub pop : List ℕ → Option (List ℕ × ℕ)
unfolding pop_from
pop [] = none
pop (x ∷ ids) = some (pop_from x ids)

-- The loop of `dispose` up to the next `await`, or its end.
unfoldable pub unload_next : Option (List ℕ × ℕ) → Fiber → Fiber
unload_next none f = record f { effect_metas = []; state = disposed; awaits = false }
unload_next (some (rest, id)) f = record f {
  disposers = rest;
  ran = f.ran ++ id ∷ [];
  awaits = true;
}

unfoldable pub is_gone : FiberState → Bool
is_gone unloading = true
is_gone disposed = true
is_gone _ = false

-- `dispose`, up to its first `await`.
unfoldable pub dispose : Fiber → Fiber
unfolding unload_next pop is_gone
dispose f =
    if is_gone f.state then f else unload_next (pop f.disposers) (record f { state = unloading })

-- The awaited disposer settles, well or not: `dispose` goes on, or throws.
unfoldable pub resume : Bool → Fiber → Fiber
unfolding unload_next pop
resume fulfilled f =
    if f.awaits
    then (if fulfilled then unload_next (pop f.disposers) f else record f { awaits = false })
    else f

pub data Happening : Type 0 where
  effects : String → Bool → Happening
  -- Nothing happens for an effect that is not registered yet.
  tears_down : ℕ → Happening
  disposes : Happening
  resumes : Bool → Happening
  -- The registry writes the field `state`.
  assigns : FiberState → Happening

unfoldable pub happen : Happening → Fiber → Fiber
unfolding effect tear_down dispose resume
happen (effects label returns) f = (effect label returns f).1
happen (tears_down id) f = if ltb id f.next_id then tear_down id f else f
happen disposes f = dispose f
happen (resumes fulfilled) f = resume fulfilled f
happen (assigns state) f = record f { state = state }

unfoldable pub history : List Happening → Fiber → Fiber
unfolding happen
history [] f = f
history (h ∷ hs) f = history hs (happen h f)
