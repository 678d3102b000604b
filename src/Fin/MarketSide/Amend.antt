-- ===== src/Fin/MarketSide/Amend.antt =====
-- `revise_order`, `take_order` and `cancel_order`: an order of the side changes in place or leaves.
use swirly.Base.{ℕ, ◌≡◌, refl, ◌∙◌, ◌⊎◌, inl, inr, none, some, arith, Bool-cases, Option-cases}
use swirly.Base.Int.{ℤ, pos, ◌-ℤ◌, ltb_ℤ, ◌≤ℤ◌, ◌<ℤ◌, int_laws, amend_total, revise_total}
use swirly.Fin.Types.{Side}
use swirly.Fin.Order.{Order, set_level, revise, cancel, trade, trade_last}
use swirly.Fin.Level.{reduce}
use swirly.Fin.MarketSide.{
  MarketSide, remove, find, write, update_level, remove_at, reduce_level, revise_order, take_order,
  cancel_order, commit,
}
use swirly.Fin.MarketSide.Book.{okey, IsResting, IsValid}
use swirly.Fin.MarketSide.Remove.{remove_at-IsValid}
use swirly.Fin.MarketSide.Write.{IsReduced, write_absent, find-All, write-IsValid}

-- `reduce_level` and then `change`, as `revise_order` and `take_order` do.
reduce_then : MarketSide → Order → ℤ → (Order → Order) → MarketSide × Order
reduce_then s o d change =
    commit (elim o.level [ none ↦ (s, o) | some key ↦ reduce_level s key o d ]) change

reduce_then_part :
    (s : MarketSide) (o : Order) (d : ℤ) (change : Order → Order)
    → o.level ≡ some (okey o)
    → d <ℤ o.resd_lots
    → reduce_then s o d change ≡ (
      record {
        levels = update_level (okey o) (reduce d) s.levels;
        orders = write (change o) s.orders;
      },
      change o,
    )
unfolding reduce_then reduce_level
reduce_then_part s o d change e h = ground arith

reduce_then_whole :
    (s : MarketSide) (o : Order) (d : ℤ) (change : Order → Order)
    → o.level ≡ some (okey o)
    → o.resd_lots ≤ℤ d
    → reduce_then s o d change ≡ commit (remove_at s (okey o) o) change
unfolding reduce_then reduce_level
reduce_then_whole s o d change e h = ground arith

-- The order is still there, with `d` lots fewer, or it is gone.
abbrev pub Reduces : Side → MarketSide → Order → ℤ → MarketSide × Order → Type 0
Reduces side s o d r =
    IsValid side r.0
    × (((d <ℤ o.resd_lots) × (r.0.orders ≡ write r.1 s.orders))
        ⊎ ((o.resd_lots ≤ℤ d) × (r.0.orders ≡ remove o.id s.orders)))

remove_at-id : (s : MarketSide) (key : ℤ) (o : Order) → (remove_at s key o).1.id ≡ o.id
unfolding remove_at set_level
remove_at-id s key o = refl

commit_removed :
    (side : Side) (s : MarketSide) (o : Order) (change : Order → Order)
    → IsValid side s
    → find o.id s.orders ≡ some o
    → ((x : Order) → (change x).id ≡ x.id)
    → IsValid side (commit (remove_at s (okey o) o) change).0
      × ((commit (remove_at s (okey o) o) change).0.orders ≡ remove o.id s.orders)
commit_removed side s o change v e keeps =
    let (valid, orders, gone) = remove_at-IsValid side s o v e in
    let r = remove_at s (okey o) o in
    let same =
      write_absent (change r.1) r.0.orders (rw (keeps r.1 ∙ remove_at-id s (okey o) o) gone) in
    (rw same valid, same ∙ orders)

reduce_then-Reduces :
    (side : Side) (s : MarketSide) (o : Order) (d : ℤ) (change : Order → Order)
    → IsValid side s
    → find o.id s.orders ≡ some o
    → ((x : Order) → (change x).id ≡ x.id)
    → (d <ℤ o.resd_lots → IsReduced d o (change o) × IsResting side (change o))
    → Reduces side s o d (reduce_then s o d change)
reduce_then-Reduces side s o d change v e keeps part =
    let at = (find-All (IsResting side) o s.orders e v.resting).at_level in
    elim (Bool-cases (ltb_ℤ d o.resd_lots)) [
      | inl some_left ↦
          let lt : d <ℤ o.resd_lots = ground arith in
          let (reduced, resting) = part lt in
          rw (reduce_then_part s o d change at lt)
            (write-IsValid side s d o (change o) v e reduced resting, inl (lt, refl))
      | inr none_left ↦
          let ge : o.resd_lots ≤ℤ d = ground arith in
          let (valid, orders) = commit_removed side s o change v e keeps in
          rw (reduce_then_whole s o d change at ge) (valid, inr (ge, orders))
    ]

-- On a valid side that holds the order, taking lots that are not negative leaves a valid side; if
-- the lots are fewer than the order has left it is written with its new state in its place in the
-- list, else it is removed from the list.
pub take_order-Reduces :
    (side : Side) (s : MarketSide) (o : Order) (lots : ℤ) (now : ℕ)
    → IsValid side s
    → find o.id s.orders ≡ some o
    → pos 0 ≤ℤ lots
    → Reduces side s o lots (take_order s o lots now)
unfolding take_order reduce_then trade_last trade
take_order-Reduces side s o lots now v e h =
    let q = find-All (IsResting side) o s.orders e v.resting in
    reduce_then-Reduces side s o lots (trade_last lots o.ticks now) v e (λ x. refl)
      λ lt. (
        record { same_id = refl; same_side = refl; same_ticks = refl; less_lots = refl },
        record {
          on_side = q.on_side;
          at_level = q.at_level;
          open_lots = omega int_laws;
          filled_lots = let f = q.filled_lots in omega int_laws;
          total_lots = amend_total o.resd_lots o.exec_lots o.lots lots q.total_lots;
        },
      )

-- On a valid side that holds the order, revising its lots leaves a valid side; if the reduction
-- is less than the order has left it is written with its new state in its place in the list, else
-- it is removed from the list.
pub revise_order-Reduces :
    (side : Side) (s : MarketSide) (o : Order) (lots : ℤ) (now : ℕ)
    → IsValid side s
    → find o.id s.orders ≡ some o
    → Reduces side s o (o.lots -ℤ lots) (revise_order s o lots now)
unfolding revise_order reduce_then revise
revise_order-Reduces side s o lots now v e =
    let q = find-All (IsResting side) o s.orders e v.resting in
    reduce_then-Reduces side s o (o.lots -ℤ lots) (revise lots now) v e (λ x. refl)
      λ lt. (
        record { same_id = refl; same_side = refl; same_ticks = refl; less_lots = refl },
        record {
          on_side = q.on_side;
          at_level = q.at_level;
          open_lots = omega int_laws;
          filled_lots = q.filled_lots;
          total_lots = revise_total o.resd_lots o.exec_lots o.lots lots q.total_lots;
        },
      )

-- Cancelling an order of the side takes it out.
pub cancel_order-IsValid :
    (side : Side) (s : MarketSide) (o : Order) (now : ℕ)
    → IsValid side s
    → find o.id s.orders ≡ some o
    → IsValid side (cancel_order s o now).0
      × ((cancel_order s o now).0.orders ≡ remove o.id s.orders)
unfolding cancel_order cancel
cancel_order-IsValid side s o now v e =
    let at = (find-All (IsResting side) o s.orders e v.resting).at_level in
    rw at (commit_removed side s o (cancel now) v e (λ x. refl))

reduce_level-id :
    (s : MarketSide) (key : ℤ) (o : Order) (d : ℤ) → (reduce_level s key o d).1.id ≡ o.id
unfolding reduce_level
reduce_level-id s key o d = ground (arith, remove_at-id s key o)

pub take_order-id :
    (s : MarketSide) (o : Order) (lots : ℤ) (now : ℕ) → (take_order s o lots now).1.id ≡ o.id
unfolding take_order trade_last trade
take_order-id s o lots now = elim (Option-cases o.level) [
  | inl e ↦ rw e
  | inr (k, e) ↦ rw e (reduce_level-id s k o lots)
]

pub revise_order-id :
    (s : MarketSide) (o : Order) (lots : ℤ) (now : ℕ) → (revise_order s o lots now).1.id ≡ o.id
unfolding revise_order revise
revise_order-id s o lots now = elim (Option-cases o.level) [
  | inl e ↦ rw e
  | inr (k, e) ↦ rw e (reduce_level-id s k o (o.lots -ℤ lots))
]

pub cancel_order-id : (s : MarketSide) (o : Order) (now : ℕ) → (cancel_order s o now).1.id ≡ o.id
unfolding cancel_order cancel
cancel_order-id s o now = elim (Option-cases o.level) [
  | inl e ↦ rw e
  | inr (k, e) ↦ rw e (remove_at-id s k o)
]
