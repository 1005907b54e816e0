-- ===== src/Projection/Rows.antt =====
-- What the client sees after each call of `apply`.
use mini_dsh.Common.{
  ◌≡◌, refl, sym, ap, ◌∙◌, List, [], ◌∷◌, ◌++◌, map, ℕ, zero, suc, length, ltb, Bool-cases, inl,
  inr,
}
use mathlib.Core.List.{append-nil, append_assoc}
use mini_dsh.Projection.View.{View, update, add, amend}
use mini_dsh.Projection.View.Publish.{Sync, empty-Sync, add-Sync, amend-Sync, publish_all}
use mini_dsh.Projection.Item.{ViewItem, Kind, kind_of}
use mini_dsh.Projection.Event.{SseEvent}
use mini_dsh.Projection.State.{Projector, create_projector}
use mini_dsh.Projection.Apply.{apply_events, apply}
use mini_dsh.Projection.Evolution.{Evolves, stay, added, amended}
use mini_dsh.Projection.Evolution.Log.{apply_events-Evolves}

Evolves-Sync : {v w : View ViewItem} → Evolves v w → Sync v → Sync w
Evolves-Sync stay s = s
Evolves-Sync (added r item) s = add-Sync item _ (Evolves-Sync r s)
Evolves-Sync (amended r n f k) s = amend-Sync n f _ (Evolves-Sync r s)

abbrev kinds : List ViewItem → List Kind
kinds = map kind_of

kinds-update :
    (n : ℕ) (f : ViewItem → ViewItem) (xs : List ViewItem)
    → ((a : ViewItem) → kind_of (f a) ≡ kind_of a)
    → kinds (update n f xs) ≡ kinds xs
unfolding update
kinds-update n f [] k = refl
kinds-update zero f (x ∷ xs) k = ap (λ c. c ∷ kinds xs) (k x)
kinds-update (suc n) f (x ∷ xs) k = ap (λ cs. kind_of x ∷ cs) (kinds-update n f xs k)

kinds-amend :
    (n : ℕ) (f : ViewItem → ViewItem) (v : View ViewItem)
    → ((a : ViewItem) → kind_of (f a) ≡ kind_of a)
    → kinds (amend n f v).items ≡ kinds v.items
unfolding amend
kinds-amend n f v k = elim (Bool-cases (ltb n (length v.items))) [
  | inl e ↦ rw e (kinds-update n f v.items k)
  | inr e ↦ rw e
]

kinds_snoc :
    (xs : List ViewItem) (item : ViewItem) → kinds (xs ++ item ∷ []) ≡ kinds xs ++ kind_of item ∷ []
kinds_snoc [] item = refl
kinds_snoc (x ∷ xs) item = ap (λ cs. kind_of x ∷ cs) (kinds_snoc xs item)

Evolves-kinds :
    {v w : View ViewItem}
    → Evolves v w
    → (rest : List Kind) × (kinds w.items ≡ kinds v.items ++ rest)
unfolding add
Evolves-kinds stay = ([], sym (append-nil _))
Evolves-kinds {v = v} (added {w = w} r item) =
    let (rest, e) = Evolves-kinds r in
    (
      rest ++ kind_of item ∷ [],
      kinds_snoc w.items item ∙ rw e (append_assoc (kinds v.items) rest (kind_of item ∷ [])),
    )
Evolves-kinds (amended {w = w} r n f k) =
    let (rest, e) = Evolves-kinds r in (rest, kinds-amend n f w k ∙ e)

-- A client applies the log in batches, as it arrives.
unfoldable pub apply_batches : List (List SseEvent) → Projector → Projector
apply_batches [] p = p
apply_batches (events ∷ batches) p = apply_batches batches (apply events p)

apply-Sync : (events : List SseEvent) (p : Projector) → Sync p.view → Sync (apply events p).view
unfolding apply
apply-Sync events p s = (publish_all _ (Evolves-Sync (apply_events-Evolves events p) s)).2

apply_batches-Sync :
    (batches : List (List SseEvent)) (p : Projector)
    → Sync p.view
    → Sync (apply_batches batches p).view
unfolding apply_batches
apply_batches-Sync [] p s = s
apply_batches-Sync (events ∷ batches) p s =
    apply_batches-Sync batches (apply events p) (apply-Sync events p s)

create_projector-Sync : Sync create_projector.view
unfolding create_projector
create_projector-Sync = empty-Sync

-- However the log was split into batches, after a call of `apply` the list that it returns is the
-- list of all items as they stand: no change of an item escapes `touch`, and none is published at a
-- wrong place.
pub apply_publishes :
    (batches : List (List SseEvent)) (events : List SseEvent)
    → let p = apply_batches batches create_projector in
      ((apply events p).view).published ≡ ((apply_events events p).view).items
unfolding apply
apply_publishes batches events =
    let s = apply_batches-Sync batches create_projector create_projector-Sync in
    (publish_all _
      (Evolves-Sync (apply_events-Evolves events (apply_batches batches create_projector)) s)).0

-- After each call of `apply` the kinds of the items begin with the kinds that there were, and adds new items at the end
-- only.
apply-kinds :
    (events : List SseEvent) (p : Projector)
    → (rest : List Kind) × (kinds ((apply_events events p).view).items
        ≡ kinds (p.view).items ++ rest)
apply-kinds events p = Evolves-kinds (apply_events-Evolves events p)
