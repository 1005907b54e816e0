-- ===== src/Kernel/Fiber/Disposal.antt =====
-- `dispose` of a fiber whose disposers do not throw.
use mini_dsh.Common.{
  ℕ, zero, suc, ◌≡◌, refl, ap, sym, ◌∙◌, true, false, none, some, List, [], ◌∷◌, ◌++◌, reverse,
  length, length-append, arith, subst,
}
use mathlib.Core.List.{append_assoc, append-nil, reverse-cons, reverse-reverse}
use mini_dsh.Kernel.Fiber.{
  Fiber, unloading, disposed, pop_from, pop, unload_next, is_gone, dispose, resume, Happening,
  resumes, history,
}

-- As many disposers settle, one after the other, and none of them throws.
unfoldable pub settlements : ℕ → List Happening
settlements zero = []
settlements (suc n) = resumes true ∷ settlements n

pop_from_snoc : (x y : ℕ) (ids : List ℕ) → pop_from x (ids ++ y ∷ []) ≡ (x ∷ ids, y)
unfolding pop_from
pop_from_snoc x y [] = refl
pop_from_snoc x y (z ∷ ids) = rw (pop_from_snoc z y ids) refl

pop_snoc : (ids : List ℕ) (y : ℕ) → pop (ids ++ y ∷ []) ≡ some (ids, y)
unfolding pop
pop_snoc [] y = unfold pop_from in refl
pop_snoc (x ∷ ids) y = rw (pop_from_snoc x y ids) refl

-- The disposers are gone, and those of a list ran in its order.
IsUnloaded : List ℕ → List ℕ → Fiber → Type 0
IsUnloaded before ids f =
    (f.state ≡ disposed) × (f.disposers ≡ []) × (f.effect_metas ≡ []) × (f.ran ≡ before ++ ids)

unload_more :
    (before : List ℕ) (x : ℕ) (ids : List ℕ) (f : Fiber)
    → IsUnloaded (before ++ x ∷ []) ids f
    → IsUnloaded before (x ∷ ids) f
unfolding IsUnloaded
unload_more before x ids f u = (u.0, u.1, u.2, u.3 ∙ append_assoc before (x ∷ []) ids)

unload_lem :
    (ids : List ℕ) (f : Fiber)
    → f.disposers ≡ reverse ids
    → IsUnloaded f.ran ids (history (settlements (length ids)) (unload_next (pop f.disposers) f))
unfolding settlements history
unload_lem [] f h =
    let popped : pop f.disposers ≡ none = ap pop h ∙ (unfold pop in refl) in
    subst (λ o. IsUnloaded f.ran [] (unload_next o f)) (sym popped)
      (unfold IsUnloaded unload_next in (refl, h, refl, sym (append-nil f.ran)))
unload_lem (x ∷ ids) f h =
    let popped = ap pop (h ∙ reverse-cons x ids) ∙ pop_snoc (reverse ids) x in
    let g : Fiber = record f { disposers = reverse ids; ran = f.ran ++ x ∷ []; awaits = true } in
    let rest = unload_lem ids g refl in
    let end : IsUnloaded f.ran (x ∷ ids)
        (history (settlements (length ids)) (unload_next (pop g.disposers) g)) =
      unload_more f.ran x ids _ rest in
    subst
      (λ o.
        IsUnloaded f.ran (x ∷ ids)
          (history (settlements (length ids)) (resume true (unload_next o f))))
      (sym popped) (unfold resume unload_next in end)

length-reverse : (ids : List ℕ) → length (reverse ids) ≡ length ids
length-reverse [] = refl
length-reverse (x ∷ ids) =
    ap length (reverse-cons x ids)
    ∙ omega (arith, length-append (reverse ids) (x ∷ []), length-reverse ids)

-- A fiber that is neither unloading nor disposed, and is disposed: once as many awaited disposers
-- have settled as it had, and none has thrown, it is disposed, owns no disposer and lists no effect,
-- and its disposers have run in the reverse order of their registration, each one once.
pub dispose_lem :
    (f : Fiber)
    → is_gone f.state ≡ false
    → let g = history (settlements (length f.disposers)) (dispose f) in
      (g.state ≡ disposed)
      × (g.disposers ≡ [])
      × (g.effect_metas ≡ [])
      × (g.ran ≡ f.ran ++ reverse f.disposers)
unfolding dispose
dispose_lem f h =
    let g : Fiber = record f { state = unloading } in
    let ids = reverse f.disposers in
    let all = unload_lem ids g (sym (reverse-reverse f.disposers)) in
    rw (h, sym (length-reverse f.disposers)) (unfold IsUnloaded in all)
