-- ===== src/Fin/MarketSide/Undo.antt =====
-- Removing an order just inserted: the undo of `create_order` when the queue is full.
use swirly.Base.{◌≡◌, refl, sym, ap, ◌∙◌, some, List, [], ◌∷◌, arith}
use mathlib.Core.Path.{subst}
use swirly.Fin.Types.{Side}
use swirly.Fin.Order.{Order, set_level}
use swirly.Fin.MarketSide.{
  MarketSide, find, remove, insert_order, remove_order, remove_at, remove_from_level, next_order,
}
use swirly.Fin.MarketSide.Book.{NotIn, IsValid, place, okey, levels_of, Sorted-Ascending}
use swirly.Fin.MarketSide.Insert.{
  CanInsert, linked, linked-id, insert_order-IsValid, insert_order-place,
}
use swirly.Fin.MarketSide.Remove.{remove-levels_of}

find-place : (o : Order) (xs : List Order) → NotIn o.id xs → find o.id (place o xs) ≡ some o
unfolding find place
find-place o [] f = ground arith
find-place o (x ∷ xs) f = ground (arith, find-place o xs f.1)

remove-place : (o : Order) (xs : List Order) → NotIn o.id xs → remove o.id (place o xs) ≡ xs
unfolding remove place
remove-place o [] f = ground arith
remove-place o (x ∷ xs) f = ground (arith, remove-place o xs f.1)

remove_order-linked :
    (s : MarketSide) (o : Order)
    → (remove_order s (linked o)).0 ≡ record {
      levels =
          remove_from_level
            (okey (linked o))
            (linked o)
            (next_order (linked o).id s.orders)
            s.levels;
      orders = remove (linked o).id s.orders;
    }
unfolding remove_order remove_at set_level
remove_order-linked s o = refl

side_ext : (s t : MarketSide) → s.levels ≡ t.levels → s.orders ≡ t.orders → s ≡ t
side_ext s t p q i = record { levels = p i; orders = q i }

-- The object that was inserted is found, and its removal brings the side back.
pub remove_order-insert_order :
    (side : Side) (s : MarketSide) (o : Order)
    → IsValid side s
    → CanInsert side s o
    → (find o.id (insert_order s o).orders ≡ some (linked o))
      × ((remove_order (insert_order s o) (linked o)).0 ≡ s)
remove_order-insert_order side s o v c =
    let (levels, orders) = insert_order-place s o v.sorted v.distinct v.aggregated in
    let fresh : NotIn (linked o).id s.orders = rw (linked-id o) c.fresh in
    let found = find-place (linked o) s.orders fresh in
    let back = remove-place (linked o) s.orders fresh in
    let valid = insert_order-IsValid side s o v c in
    let n = insert_order s o in
    let at : find (linked o).id n.orders ≡ some (linked o) =
      subst (λ xs. find (linked o).id xs ≡ some (linked o)) (sym orders) found in
    let gone : remove (linked o).id n.orders ≡ s.orders = ap (remove (linked o).id) orders ∙ back in
    let (k, up) = Sorted-Ascending n.orders valid.sorted in
    let settled = remove-levels_of side (linked o) k n.orders up valid.resting at in
    let taken =
      ap (remove_from_level (okey (linked o)) (linked o) (next_order (linked o).id n.orders))
        valid.aggregated in
    (
      subst (λ i. find i n.orders ≡ some (linked o)) (linked-id o) at,
      remove_order-linked n o
          ∙ side_ext _ s (taken ∙ settled ∙ ap levels_of gone ∙ sym v.aggregated) gone,
    )
