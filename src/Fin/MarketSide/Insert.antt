-- ===== src/Fin/MarketSide/Insert.antt =====
-- `insert_order` keeps price-time priority and the level totals.
use swirly.Base.{
  ℕ, ◌≡◌, ◌≢◌, refl, sym, ap, ◌∙◌, inl, inr, false, Option, some, List, [], ◌∷◌, All, arith,
  Bool-cases,
}
use swirly.Base.Int.{ℤ, pos, ◌+ℤ◌, ltb_ℤ, ◌≤ℤ◌, ◌<ℤ◌, eq_of_parts}
use swirly.Fin.Types.{Side}
use swirly.Fin.Order.{Order, set_level}
use swirly.Fin.Level.{Level, LevelSet, compose_key, lower_bound, find_hint, add_order, push_before}
use swirly.Fin.Level
use swirly.Fin.MarketSide.{MarketSide, insert_level, insert_order}
use swirly.Fin.MarketSide.Book.{
  okey, levels_of, place, Ascending, Sorted, NotIn, Distinct, IsResting, IsValid, levels_of-Rising,
  Sorted-Ascending,
}
use swirly.Fin.MarketSide.Hint.{
  ins, first_of_head, insert_level-cons, insert_level-ins, insert_level-after, ins-levels_of,
  worse_first-levels_of, insert_next, insert_next-place,
}

insert_level-key_nil : (o : Order) → (insert_level [] o).level.key ≡ okey o
unfolding insert_level find_hint lower_bound Level.make
insert_level-key_nil o = refl

insert_level-stop_key :
    (l : Level) (ls : LevelSet) (o : Order)
    → ltb_ℤ l.key (okey o) ≡ false
    → (insert_level (l ∷ ls) o).level.key ≡ okey o
unfolding insert_level find_hint lower_bound Level.make add_order
insert_level-stop_key l ls o h = ground (arith, eq_of_parts l.key (okey o))

insert_level-key : (ls : LevelSet) (o : Order) → (insert_level ls o).level.key ≡ okey o
insert_level-key [] o = insert_level-key_nil o
insert_level-key (l ∷ ls) o = elim (Bool-cases (ltb_ℤ l.key (okey o))) [
  | inl h ↦ rw (insert_level-cons l ls o h) (insert_level-key ls o)
  | inr h ↦ insert_level-stop_key l ls o h
]

ins-set_level : (v : Option ℤ) (o : Order) (ls : LevelSet) → ins (set_level v o) ls ≡ ins o ls
unfolding ins set_level Level.make add_order
ins-set_level v o [] = refl
ins-set_level v o (l ∷ ls) = ground (arith, ins-set_level v o ls)

okey-set_level : (v : Option ℤ) (o : Order) → okey (set_level v o) ≡ okey o
unfolding set_level
okey-set_level v o = refl

-- The order with the pointer to its level.
abbrev pub linked : Order → Order
linked o = set_level (some (okey o)) o

insert_order-levels : (s : MarketSide) (o : Order) → (insert_order s o).levels ≡ ins o s.levels
unfolding insert_order
insert_order-levels s o = insert_level-ins s.levels o

insert_order-orders :
    (s : MarketSide) (o : Order)
    → (insert_order s o).orders
      ≡ insert_next
          (set_level (some (insert_level s.levels o).level.key) o)
          (first_of_head (insert_level s.levels o).after)
          s.orders
unfolding insert_order insert_next first_of_head
insert_order-orders s o = ground arith

-- For a side with its orders in priority order, their ids distinct and its levels those that the
-- orders make up, MarketSide::insert_order puts the order behind all orders of the same or a
-- better price and before all of a worse one, linked to its level, and leaves the levels that the
-- new list of orders makes up.
pub insert_order-place :
    (s : MarketSide) (o : Order)
    → Sorted s.orders
    → Distinct s.orders
    → s.levels ≡ levels_of s.orders
    → ((insert_order s o).levels ≡ levels_of (place (linked o) s.orders))
      × ((insert_order s o).orders ≡ place (linked o) s.orders)
unfolding set_level
insert_order-place s o a d e =
    let (k, up) = Sorted-Ascending s.orders a in
    (
      insert_order-levels s o
          ∙ ap (ins o) e
          ∙ sym (ins-set_level (some (okey o)) o (levels_of s.orders))
          ∙ ins-levels_of (linked o) k s.orders up,
      insert_order-orders s o
          ∙ rw
              (
                insert_level-key s.levels o,
                insert_level-after s.levels o (rw e (levels_of-Rising k s.orders up)),
                e,
                worse_first-levels_of (okey o) s.orders,
              )
              (rw (← okey-set_level (some (okey o)) o) (insert_next-place (linked o) s.orders d)),
    )

place-Ascending :
    (o : Order) (k : ℤ) (xs : List Order) → k ≤ℤ okey o → Ascending k xs → Ascending k (place o xs)
unfolding place
place-Ascending o k [] h a = (h, tt)
place-Ascending o k (x ∷ xs) h a = elim (Bool-cases (ltb_ℤ (okey o) (okey x))) [
  | inl lt ↦ rw lt (h, (ground arith, a.1))
  | inr ge ↦ rw ge (a.0, place-Ascending o (okey x) xs (ground arith) a.1)
]

place-Sorted : (o : Order) (xs : List Order) → Sorted xs → Sorted (place o xs)
unfolding place
place-Sorted o [] a = tt
place-Sorted o (x ∷ xs) a = elim (Bool-cases (ltb_ℤ (okey o) (okey x))) [
  | inl lt ↦ rw lt (ground arith, a)
  | inr ge ↦ rw ge (place-Ascending o (okey x) xs (ground arith) a)
]

pub place-NotIn :
    (o : Order) (id : ℕ) (xs : List Order) → o.id ≢ id → NotIn id xs → NotIn id (place o xs)
unfolding place
place-NotIn o id [] h f = (h, tt)
place-NotIn o id (x ∷ xs) h f = ground (arith, place-NotIn o id xs h f.1)

place-Distinct : (o : Order) (xs : List Order) → NotIn o.id xs → Distinct xs → Distinct (place o xs)
unfolding place
place-Distinct o [] f d = (tt, tt)
place-Distinct o (x ∷ xs) f d = ground (
  arith,
  place-Distinct o xs f.1 d.1,
  place-NotIn o x.id xs (λ (e : o.id ≡ x.id). f.0 (sym e)) d.0,
)

pub place-All :
    (P : Order → Type 0) (o : Order) (xs : List Order) → P o → All P xs → All P (place o xs)
unfolding place
place-All P o [] h a = (h, tt)
place-All P o (x ∷ xs) h a = elim (Bool-cases (ltb_ℤ (okey o) (okey x))) [
  | inl lt ↦ rw lt (h, a)
  | inr ge ↦ rw ge (a.0, place-All P o xs h a.1)
]

-- What an order must be to be inserted: new to this side, with lots left.
pub record CanInsert (side : Side) (s : MarketSide) (o : Order) : Type 0 where
  pub fresh : NotIn o.id s.orders
  pub on_side : o.side ≡ side
  pub open_lots : pos 0 <ℤ o.resd_lots
  pub filled_lots : pos 0 ≤ℤ o.exec_lots
  pub total_lots : o.resd_lots +ℤ o.exec_lots ≡ o.lots

pub linked-IsResting :
    (side : Side) (s : MarketSide) (o : Order) → CanInsert side s o → IsResting side (linked o)
unfolding set_level
linked-IsResting side s o c = record {
  on_side = c.on_side;
  at_level = refl;
  open_lots = c.open_lots;
  filled_lots = c.filled_lots;
  total_lots = c.total_lots;
}

pub linked-id : (o : Order) → (linked o).id ≡ o.id
unfolding set_level
linked-id o = refl

-- Inserting an order keeps a valid side valid.
pub insert_order-IsValid :
    (side : Side) (s : MarketSide) (o : Order)
    → IsValid side s
    → CanInsert side s o
    → IsValid side (insert_order s o)
insert_order-IsValid side s o v c =
    let (levels, orders) = insert_order-place s o v.sorted v.distinct v.aggregated in
    record {
      sorted = rw orders (place-Sorted (linked o) s.orders v.sorted);
      distinct =
          rw orders (place-Distinct (linked o) s.orders (rw (linked-id o) c.fresh) v.distinct);
      resting =
          rw orders (
            place-All (IsResting side) (linked o) s.orders (linked-IsResting side s o c) v.resting);
      aggregated = rw (levels, orders);
    }
