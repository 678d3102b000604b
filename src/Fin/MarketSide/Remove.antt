-- ===== src/Fin/MarketSide/Remove.antt =====
-- `remove_order` takes one order out and brings the levels up to date.
use swirly.Base.{
  ℕ, ◌≡◌, refl, ap, ◌∙◌, inl, inr, false, some, List, [], ◌∷◌, ◌==◌, All, arith, Bool-cases,
}
use swirly.Base.Int.{ℤ}
use swirly.Fin.Types.{Side}
use swirly.Fin.Order.{Order}
use swirly.Fin.MarketSide.{MarketSide, remove, find, next_order, remove_from_level, remove_at}
use swirly.Fin.MarketSide.Book.{
  okey, add_front, levels_of, Ascending, Sorted, NotIn, Distinct, IsResting, IsValid,
  levels_of-FirstGe, Ascending-weaken, levels_of-Rising, Sorted-Ascending,
}
use swirly.Fin.MarketSide.Settle.{
  find-here, find-HasLevel, remove-add_front, find-okey, remove-levels_of_first,
}

pub find-nil : (o : Order) → find o.id [] ≡ some o → ⊥
unfolding find
find-nil o e = cc

pub find-later :
    (o x : Order) (xs : List Order)
    → x.id == o.id ≡ false
    → find o.id (x ∷ xs) ≡ some o
    → find o.id xs ≡ some o
unfolding find
find-later o x xs miss e = ground arith

levels_of-step :
    (o x : Order) (xs : List Order)
    → x.id == o.id ≡ false
    → remove_from_level (okey o) o (next_order o.id (x ∷ xs)) (levels_of (x ∷ xs))
      ≡ remove_from_level (okey o) o (next_order o.id xs) (add_front x (levels_of xs))
unfolding levels_of next_order
levels_of-step o x xs miss = rw miss

pub levels_of-cons : (x : Order) (xs : List Order) → add_front x (levels_of xs) ≡ levels_of (x ∷ xs)
unfolding levels_of
levels_of-cons x xs = refl

-- Removing an order brings the levels to those of the orders that are left.
pub remove-levels_of :
    (side : Side) (o : Order) (k : ℤ) (xs : List Order)
    → Ascending k xs
    → All (IsResting side) xs
    → find o.id xs ≡ some o
    → remove_from_level (okey o) o (next_order o.id xs) (levels_of xs) ≡ levels_of (remove o.id xs)
unfolding remove
remove-levels_of side o k [] a r e = absurd (find-nil o e)
remove-levels_of side o k (x ∷ xs) a r e = elim (Bool-cases (x.id == o.id)) [
  | inl hit ↦ rw hit (rw (← find-here o x xs hit e) (remove-levels_of_first side x xs r))
  | inr miss ↦
      let there = find-later o x xs miss e in
      rw miss (
        levels_of-step o x xs miss
        ∙ remove-add_front x o (next_order o.id xs) (levels_of xs) (ground arith)
            (find-okey o (okey x) xs a.1 there) (levels_of-FirstGe (okey x) xs a.1)
            (levels_of-Rising (okey x) xs a.1) (find-HasLevel o xs there)
        ∙ ap (add_front x) (remove-levels_of side o (okey x) xs a.1 r.1 there)
        ∙ levels_of-cons x (remove o.id xs))
]

remove-Ascending : (id : ℕ) (k : ℤ) (xs : List Order) → Ascending k xs → Ascending k (remove id xs)
unfolding remove
remove-Ascending id k [] a = tt
remove-Ascending id k (x ∷ xs) a = elim (Bool-cases (x.id == id)) [
  | inl hit ↦ rw hit (Ascending-weaken k (okey x) xs a.0 a.1)
  | inr miss ↦ rw miss (a.0, remove-Ascending id (okey x) xs a.1)
]

pub Ascending-Sorted : (k : ℤ) (xs : List Order) → Ascending k xs → Sorted xs
Ascending-Sorted k [] a = tt
Ascending-Sorted k (x ∷ xs) a = a.1

pub remove-All : (P : Order → Type 0) (id : ℕ) (xs : List Order) → All P xs → All P (remove id xs)
unfolding remove
remove-All P id [] a = tt
remove-All P id (x ∷ xs) a = elim (Bool-cases (x.id == id)) [
  | inl hit ↦ rw hit a.1
  | inr miss ↦ rw miss (a.0, remove-All P id xs a.1)
]

pub remove-NotIn : (id k : ℕ) (xs : List Order) → NotIn k xs → NotIn k (remove id xs)
unfolding remove
remove-NotIn id k [] f = tt
remove-NotIn id k (x ∷ xs) f = ground (arith, remove-NotIn id k xs f.1)

remove-Distinct : (id : ℕ) (xs : List Order) → Distinct xs → Distinct (remove id xs)
unfolding remove
remove-Distinct id [] d = tt
remove-Distinct id (x ∷ xs) d =
    ground (arith, remove-Distinct id xs d.1, remove-NotIn id x.id xs d.0)

pub NotIn-remove : (id : ℕ) (xs : List Order) → Distinct xs → NotIn id (remove id xs)
unfolding remove
NotIn-remove id [] d = tt
NotIn-remove id (x ∷ xs) d = elim (Bool-cases (x.id == id)) [
  | inl hit ↦ rw hit (let e : x.id ≡ id = ground arith in rw (← e) d.0)
  | inr miss ↦ rw miss (ground arith, NotIn-remove id xs d.1)
]

remove_at-fields :
    (s : MarketSide) (key : ℤ) (o : Order)
    → ((remove_at s key o).0.levels ≡ remove_from_level key o (next_order o.id s.orders) s.levels)
      × ((remove_at s key o).0.orders ≡ remove o.id s.orders)
unfolding remove_at
remove_at-fields s key o = (refl, refl)

-- On a valid side that holds the order, removing the order at its level leaves a valid side,
-- whose orders are the others in their order and which does not hold the id any more.
pub remove_at-IsValid :
    (side : Side) (s : MarketSide) (o : Order)
    → IsValid side s
    → find o.id s.orders ≡ some o
    → IsValid side (remove_at s (okey o) o).0
      × ((remove_at s (okey o) o).0.orders ≡ remove o.id s.orders)
      × NotIn o.id (remove_at s (okey o) o).0.orders
remove_at-IsValid side s o v e =
    let (levels, orders) = remove_at-fields s (okey o) o in
    let (k, up) = Sorted-Ascending s.orders v.sorted in
    (
      record {
        sorted = rw orders (Ascending-Sorted k _ (remove-Ascending o.id k s.orders up));
        distinct = rw orders (remove-Distinct o.id s.orders v.distinct);
        resting = rw orders (remove-All (IsResting side) o.id s.orders v.resting);
        aggregated =
            rw (orders, levels, v.aggregated) (remove-levels_of side o k s.orders up v.resting e);
      },
      orders,
      rw orders (NotIn-remove o.id s.orders v.distinct),
    )
