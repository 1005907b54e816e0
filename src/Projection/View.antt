-- ===== src/Projection/View.antt =====
-- The items under construction, the list that was last published, and the positions whose items have
-- changed since (`items`, `published`, `dirty`, `touch`, `add` and the end of `apply`).
pub mod Publish
use mini_dsh.Common.{
  ℕ, zero, suc, Bool, false, ◌||◌, Option, none, some, List, [], ◌∷◌, ◌++◌, eqb, ltb, if◌then◌else◌,
  length, get_elem?,
}

pub record View {ℓ} (A : Type ℓ) : Type ℓ where
  pub items : List A
  pub published : List A
  pub dirty : List ℕ

unfoldable pub mark : ℕ → List ℕ → List ℕ
mark n [] = n ∷ []
mark n (d ∷ dirty) = if eqb d n then d ∷ dirty else d ∷ mark n dirty

module _ {ℓ} {A : Type ℓ} where
  unfoldable pub update : ℕ → (A → A) → List A → List A
  update n f [] = []
  update zero f (x ∷ xs) = f x ∷ xs
  update (suc n) f (x ∷ xs) = x ∷ update n f xs

  unfoldable pub add : A → View A → View A
  add item v = record v { items = v.items ++ item ∷ []; dirty = mark (length v.items) v.dirty }

  -- A change of the item at a position, with its `touch`.
  unfoldable pub amend : ℕ → (A → A) → View A → View A
  amend n f v =
      if ltb n (length v.items)
      then record v { items = update n f v.items; dirty = mark n v.dirty }
      else v

  -- `next[n] = item`, for a position in the list or just behind it.
  unfoldable pub assign : ℕ → A → List A → List A
  assign zero a [] = a ∷ []
  assign (suc n) a [] = []
  assign zero a (x ∷ xs) = a ∷ xs
  assign (suc n) a (x ∷ xs) = x ∷ assign n a xs

  unfoldable pub copy_item : Option A → ℕ → List A → List A
  copy_item none n next = next
  copy_item (some a) n next = assign n a next

  unfoldable pub copy_dirty : List A → List ℕ → List A → List A
  unfolding copy_item
  copy_dirty items [] next = next
  copy_dirty items (d ∷ dirty) next = copy_dirty items dirty (copy_item (get_elem? items d) d next)

  unfoldable pub publish : View A → View A
  publish v = elim v.dirty [
    | [] ↦ v
    | d ∷ dirty ↦ record v { published = copy_dirty v.items (d ∷ dirty) v.published; dirty = [] }
  ]

  unfoldable pub empty_view : View A
  empty_view = record { items = []; published = []; dirty = [] }
