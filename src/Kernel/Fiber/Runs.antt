-- ===== src/Kernel/Fiber/Runs.antt =====
-- How often a disposer runs.
use mini_dsh.Common.Ids.{mem, count, count_snoc}
use mini_dsh.Common.{
  ℕ, ◌+◌, ◌≡◌, refl, Bool, false, not, ◌&&◌, Option, none, some, List, [], ◌∷◌, eqb, ltb,
  if◌then◌else◌, arith, Bool-cases, inl, inr,
}
use mini_dsh.Kernel.Fiber.{
  Fiber, new_fiber, unloading, effect, remove_first, tear_down, pop_from, pop, unload_next, is_gone,
  dispose, resume, Happening, effects, tears_down, disposes, resumes, assigns, happen, history,
}

-- 1 for an effect that was registered.
unfoldable pub once : ℕ → Fiber → ℕ
once id f = if ltb id f.next_id then 1 else 0

-- The returned disposer of `id` is called for the first time, when `dispose` has taken it already.
unfoldable pub is_late : ℕ → ℕ → Fiber → Bool
is_late id called f =
    eqb called id
    && ltb called f.next_id
    && not (mem called f.settled)
    && not (mem called f.disposers)

unfoldable pub late_now : ℕ → Happening → Fiber → ℕ
unfolding is_late
late_now id (tears_down called) f = if is_late id called f then 1 else 0
late_now id _ f = 0

-- How many calls of the returned disposer of `id` come late in a history.
unfoldable pub late : ℕ → List Happening → Fiber → ℕ
unfolding late_now
late id [] f = 0
late id (h ∷ hs) f = late_now id h f + late id hs (happen h f)

unfoldable pub total : ℕ → Fiber → ℕ
unfolding count
total id f = count id f.ran + count id f.disposers

count-remove_first :
    (id x : ℕ) (ids : List ℕ)
    → count id (remove_first x ids) + (if eqb x id && mem x ids then 1 else 0) ≡ count id ids
unfolding count remove_first mem
count-remove_first id x [] = ground arith
count-remove_first id x (y ∷ ids) = ground (arith, count-remove_first id x ids)

count-pop_from :
    (id x : ℕ) (ids : List ℕ)
    → count id (pop_from x ids).0 + (if eqb (pop_from x ids).1 id then 1 else 0)
      ≡ count id (x ∷ ids)
unfolding count pop_from
count-pop_from id x [] = omega arith
count-pop_from id x (y ∷ ids) = omega (arith, count-pop_from id y ids)

total-unload_next :
    (id : ℕ) (ids : List ℕ) (f : Fiber)
    → f.disposers ≡ ids
    → total id (unload_next (pop ids) f) ≡ total id f
unfolding total unload_next pop
total-unload_next id [] f h = refl
total-unload_next id (x ∷ ids) f h =
    let last = (pop_from x ids).1 in
    rw h (omega (arith, count_snoc id last f.ran, count-pop_from id x ids))

once-unload_next :
    (id : ℕ) (o : Option (List ℕ × ℕ)) (f : Fiber) → once id (unload_next o f) ≡ once id f
unfolding once unload_next
once-unload_next id none f = refl
once-unload_next id (some p) f = refl

-- What one happening changes.
Balances : ℕ → Happening → Fiber → Type 0
Balances id h f =
    total id (happen h f) + once id f ≡ total id f + once id (happen h f) + late_now id h f

tear_down-Balances : (id called : ℕ) (f : Fiber) → Balances id (tears_down called) f
unfolding Balances happen tear_down total once late_now is_late
tear_down-Balances id called f =
    ground (arith, count_snoc id called f.ran, count-remove_first id called f.disposers)

dispose-Balances : (id : ℕ) (f : Fiber) → Balances id disposes f
unfolding Balances happen late_now dispose
dispose-Balances id f = elim (Bool-cases (is_gone f.state)) [
  | inl gone ↦ rw gone (omega arith)
  | inr here ↦
      let g = record f { state = unloading } in
      let same_total : total id g ≡ total id f = unfold total in refl in
      let same_once : once id g ≡ once id f = unfold once in refl in
      rw here (
        omega (
          arith,
          total-unload_next id f.disposers g refl,
          once-unload_next id (pop f.disposers) g,
          same_total,
          same_once,
        ))
]

resume-Balances : (id : ℕ) (fulfilled : Bool) (f : Fiber) → Balances id (resumes fulfilled) f
unfolding Balances happen late_now resume
resume-Balances id fulfilled f =
    let stopped = record f { awaits = false } in
    let same_total : total id stopped ≡ total id f = unfold total in refl in
    let same_once : once id stopped ≡ once id f = unfold once in refl in
    ground (
      arith,
      total-unload_next id f.disposers f refl,
      once-unload_next id (pop f.disposers) f,
      same_total,
      same_once,
    )

happen-Balances : (id : ℕ) (h : Happening) (f : Fiber) → Balances id h f
unfolding Balances happen late_now
happen-Balances id (effects label returns) f =
    unfold effect total once in ground (arith, count_snoc id f.next_id f.disposers)
happen-Balances id (tears_down called) f = tear_down-Balances id called f
happen-Balances id disposes f = dispose-Balances id f
happen-Balances id (resumes fulfilled) f = resume-Balances id fulfilled f
happen-Balances id (assigns state) f = unfold total once in omega arith

history_balances :
    (id : ℕ) (hs : List Happening) (f : Fiber)
    → total id (history hs f) + once id f ≡ total id f + once id (history hs f) + late id hs f
unfolding history late
history_balances id [] f = omega arith
history_balances id (h ∷ hs) f =
    let step : total id (happen h f) + once id f
        ≡ total id f + once id (happen h f) + late_now id h f =
      unfold Balances in happen-Balances id h f in
    omega (arith, history_balances id hs (happen h f), step)

-- In every history of a fiber, also with disposers that throw: a disposer that was registered stands
-- in the list of the fiber once or has run once, never both and never neither; it runs once more
-- exactly for a first call of its returned disposer that comes after `dispose` has taken it.
pub runs_lem :
    (id : ℕ) (hs : List Happening)
    → let f = history hs new_fiber in
      count id f.ran + count id f.disposers
      ≡ (if ltb id f.next_id then 1 else 0) + late id hs new_fiber
runs_lem id hs =
    let f = history hs new_fiber in
    let balance = history_balances id hs new_fiber in
    let nothing : total id new_fiber ≡ 0 = unfold total count in refl in
    let unknown : once id new_fiber ≡ 0 = unfold once in ground arith in
    let sum : total id f ≡ count id f.ran + count id f.disposers = unfold total in refl in
    let known : once id f ≡ (if ltb id f.next_id then 1 else 0) = unfold once in refl in
    rw⁻¹ (sum, known) (omega (arith, balance, nothing, unknown))
