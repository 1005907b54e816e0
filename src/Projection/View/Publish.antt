-- ===== src/Projection/View/Publish.antt =====
-- Publishing the dirty positions publishes all items.
use native.Mathlib.Numerals.{add-one}
use mini_dsh.Common.{
  ℕ, zero, suc, ◌≤◌, ◌<◌, ◌≡◌, refl, ap, Bool, false, ◌||◌, ◌⊎◌, inl, inr, some, List, [], ◌∷◌,
  ◌++◌, eqb, ltb, if◌then◌else◌, length, length-append, get_elem?, arith, Bool-cases, sym, ◌∙◌,
  subst,
}
use mini_dsh.Projection.View.{
  View, mark, update, add, amend, assign, copy_dirty, publish, empty_view,
}

unfoldable pub marked : ℕ → List ℕ → Bool
marked k [] = false
marked k (d ∷ dirty) = eqb d k || marked k dirty

marked-mark : (k n : ℕ) (dirty : List ℕ) → marked k (mark n dirty) ≡ (eqb n k || marked k dirty)
unfolding marked mark
marked-mark k n [] = refl
marked-mark k n (d ∷ dirty) = ground (arith, marked-mark k n dirty)

-- Writing the dirty positions in order into a list of length `m` fills it up to length `n`, with no
-- position left out.
abbrev pub Fills : ℕ → List ℕ → ℕ → Type 0
Fills m [] n = m ≡ n
Fills m (d ∷ dirty) n = ((d < m) × Fills m dirty n) ⊎ ((d ≡ m) × Fills (suc m) dirty n)

Fills-le : (m : ℕ) (dirty : List ℕ) (n : ℕ) → Fills m dirty n → m ≤ n
Fills-le m [] n h = omega arith
Fills-le m (d ∷ dirty) n (inl h) = Fills-le m dirty n h.1
Fills-le m (d ∷ dirty) n (inr h) = omega (arith, Fills-le (suc m) dirty n h.1)

Fills-mark_new : (m : ℕ) (dirty : List ℕ) (n : ℕ) → Fills m dirty n → Fills m (mark n dirty) (suc n)
unfolding mark
Fills-mark_new m [] n h = inr (omega arith, omega arith)
Fills-mark_new m (d ∷ dirty) n (inl h) =
    let le = Fills-le m dirty n h.1 in
    let differs : eqb d n ≡ false = ground arith in
    rw differs (inl (h.0, Fills-mark_new m dirty n h.1))
Fills-mark_new m (d ∷ dirty) n (inr h) =
    let le = Fills-le (suc m) dirty n h.1 in
    let differs : eqb d n ≡ false = ground arith in
    rw differs (inr (h.0, Fills-mark_new (suc m) dirty n h.1))

Fills-mark_old :
    (m : ℕ) (dirty : List ℕ) (n k : ℕ) → k < n → Fills m dirty n → Fills m (mark k dirty) n
unfolding mark
Fills-mark_old m [] n k lt h = inl (omega arith, omega arith)
Fills-mark_old m (d ∷ dirty) n k lt h = elim (Bool-cases (eqb d k)) [
  | inl e ↦ rw e h
  | inr e ↦ rw e (elim h [
    | inl g ↦ inl (g.0, Fills-mark_old m dirty n k lt g.1)
    | inr g ↦ inr (g.0, Fills-mark_old (suc m) dirty n k lt g.1)
  ])
]

module _ {ℓ} {A : Type ℓ} where
  length-update : (n : ℕ) (f : A → A) (xs : List A) → length (update n f xs) ≡ length xs
  unfolding update
  length-update n f [] = refl
  length-update zero f (x ∷ xs) = refl
  length-update (suc n) f (x ∷ xs) = ap suc (length-update n f xs)

  get-update_ne :
      (k n : ℕ) (f : A → A) (xs : List A)
      → eqb n k ≡ false
      → get_elem? (update n f xs) k ≡ get_elem? xs k
  unfolding update
  get-update_ne k n f [] h = refl
  get-update_ne zero zero f (x ∷ xs) h = ground arith
  get-update_ne (suc k) zero f (x ∷ xs) h = refl
  get-update_ne zero (suc n) f (x ∷ xs) h = refl
  get-update_ne (suc k) (suc n) f (x ∷ xs) h = get-update_ne k n f xs (ground arith)

  get-snoc_ne :
      (k : ℕ) (xs : List A) (x : A)
      → eqb (length xs) k ≡ false
      → get_elem? (xs ++ x ∷ []) k ≡ get_elem? xs k
  get-snoc_ne zero [] x h = ground arith
  get-snoc_ne (suc k) [] x h = refl
  get-snoc_ne zero (y ∷ xs) x h = refl
  get-snoc_ne (suc k) (y ∷ xs) x h = get-snoc_ne k xs x (ground arith)

  length-assign : (n : ℕ) (a : A) (xs : List A) → n < length xs → length (assign n a xs) ≡ length xs
  unfolding assign
  length-assign n a [] h = absurd (omega arith)
  length-assign zero a (x ∷ xs) h = refl
  length-assign (suc n) a (x ∷ xs) h = ap suc (length-assign n a xs (omega arith))

  length-assign_end :
      (n : ℕ) (a : A) (xs : List A) → n ≡ length xs → length (assign n a xs) ≡ suc (length xs)
  unfolding assign
  length-assign_end zero a [] h = refl
  length-assign_end (suc n) a [] h = absurd (omega arith)
  length-assign_end zero a (x ∷ xs) h = absurd (omega arith)
  length-assign_end (suc n) a (x ∷ xs) h = ap suc (length-assign_end n a xs (omega arith))

  get-assign :
      (k n : ℕ) (a : A) (xs : List A)
      → n ≤ length xs
      → get_elem? (assign n a xs) k ≡ (if eqb n k then some a else get_elem? xs k)
  unfolding assign
  get-assign zero zero a [] h = refl
  get-assign (suc k) zero a [] h = ground arith
  get-assign k (suc n) a [] h = absurd (omega arith)
  get-assign zero zero a (x ∷ xs) h = refl
  get-assign (suc k) zero a (x ∷ xs) h = ground arith
  get-assign zero (suc n) a (x ∷ xs) h = ground arith
  get-assign (suc k) (suc n) a (x ∷ xs) h = ground (arith, get-assign k n a xs (omega arith))

  get_some : (n : ℕ) (xs : List A) → n < length xs → (a : A) × (get_elem? xs n ≡ some a)
  get_some n [] h = absurd (omega arith)
  get_some zero (x ∷ xs) h = (x, refl)
  get_some (suc n) (x ∷ xs) h = get_some n xs (omega arith)

  list_ext : (xs ys : List A) → ((k : ℕ) → get_elem? xs k ≡ get_elem? ys k) → xs ≡ ys
  list_ext [] [] h = refl
  list_ext [] (y ∷ ys) h = cc (h 0)
  list_ext (x ∷ xs) [] h = cc (h 0)
  list_ext (x ∷ xs) (y ∷ ys) h = let tails = list_ext xs ys (λ k. h (suc k)) in cc (h 0, tails)

  -- What holds between two publications.
  pub record Sync (v : View A) : Type ℓ where
    pub fills : Fills (length v.published) v.dirty (length v.items)
    pub agree : (k : ℕ) → marked k v.dirty ≡ false → get_elem? v.published k ≡ get_elem? v.items k

  pub empty-Sync : Sync empty_view
  unfolding empty_view
  empty-Sync = record { fills = refl; agree = λ k h. refl }

  pub add-Sync : (item : A) (v : View A) → Sync v → Sync (add item v)
  unfolding add
  add-Sync item v s = record {
    fills =
        rw (length-append v.items (item ∷ []))
          (rw add-one (Fills-mark_new (length v.published) v.dirty (length v.items) s.fills));
    agree = λ k h.
        let m = marked-mark k (length v.items) v.dirty in
        let old : marked k v.dirty ≡ false = ground (arith, m) in
        let ne : eqb (length v.items) k ≡ false = ground (arith, m) in
        s.agree k old ∙ sym (get-snoc_ne k v.items item ne);
  }

  pub amend-Sync : (n : ℕ) (f : A → A) (v : View A) → Sync v → Sync (amend n f v)
  unfolding amend
  amend-Sync n f v s = elim (Bool-cases (ltb n (length v.items))) [
    | inr e ↦ rw e s
    | inl e ↦ rw e (record {
      fills =
          rw (length-update n f v.items)
            (Fills-mark_old (length v.published) v.dirty (length v.items) n (ground arith) s.fills);
      agree = λ k h.
          let m = marked-mark k n v.dirty in
          let old : marked k v.dirty ≡ false = ground (arith, m) in
          let ne : eqb n k ≡ false = ground (arith, m) in
          s.agree k old ∙ sym (get-update_ne k n f v.items ne);
    })
  ]

  get-copy_dirty :
      (k : ℕ) (items : List A) (dirty : List ℕ) (next : List A)
      → Fills (length next) dirty (length items)
      → get_elem? (copy_dirty items dirty next) k
        ≡ (if marked k dirty then get_elem? items k else get_elem? next k)
  unfolding copy_dirty marked
  get-copy_dirty k items [] next h = refl
  get-copy_dirty k items (d ∷ dirty) next (inl h) =
      let le = Fills-le (length next) dirty (length items) h.1 in
      let (a, e) = get_some d items (omega arith) in
      let len = length-assign d a next h.0 in
      rw e (
        ground (
          arith,
          e,
          get-assign k d a next (omega arith),
          get-copy_dirty k items dirty (assign d a next) (rw len h.1),
        ))
  get-copy_dirty k items (d ∷ dirty) next (inr h) =
      let le = Fills-le (suc (length next)) dirty (length items) h.1 in
      let (a, e) = get_some d items (omega arith) in
      let len = length-assign_end d a next h.0 in
      rw e (
        ground (
          arith,
          e,
          get-assign k d a next (omega arith),
          get-copy_dirty k items dirty (assign d a next) (rw len h.1),
        ))

  -- After a publication the published list is the list of the items, and nothing is dirty.
  pub publish_all :
      (v : View A)
      → Sync v
      → ((publish v).published ≡ v.items) × ((publish v).items ≡ v.items) × Sync (publish v)
  unfolding publish marked
  publish_all v s = by_dirty v.dirty refl
    where
      by_dirty :
          (dirty : List ℕ)
          → v.dirty ≡ dirty
          → ((publish v).published ≡ v.items) × ((publish v).items ≡ v.items) × Sync (publish v)
      by_dirty [] e =
          let same = list_ext v.published v.items (λ k. s.agree k (rw e)) in
          rw (e, publish) (same, refl, s)
      by_dirty (d ∷ dirty) e =
          let fills : Fills (length v.published) (d ∷ dirty) (length v.items) =
            subst (λ ds. Fills (length v.published) ds (length v.items)) e s.fills in
          let same = list_ext (copy_dirty v.items (d ∷ dirty) v.published) v.items (λ k.
            elim (Bool-cases (marked k (d ∷ dirty))) [
              | inl m ↦ get-copy_dirty k v.items (d ∷ dirty) v.published fills ∙ rw m
              | inr m ↦
                  get-copy_dirty k v.items (d ∷ dirty) v.published fills ∙ rw m (s.agree k (rw e m))
            ]) in
          rw (e, publish)
            (
              same,
              refl,
              record { fills = ap length same; agree = λ k h. ap (λ xs. get_elem? xs k) same },
            )
