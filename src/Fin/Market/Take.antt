-- ===== src/Fin/Market/Take.antt =====
-- What taking lots from the first order of a side leaves of a market.
use swirly.Base.{
  ℕ, ◌≡◌, refl, sym, ◌∙◌, ◌⊎◌, inl, inr, none, some, List, [], ◌∷◌, if◌then◌else◌, All, arith,
  Option-cases,
}
use mathlib.Core.Path.{subst}
use swirly.Base.Int.{ℤ, pos, ◌≤ℤ◌, ◌<ℤ◌}
use swirly.Fin.Types.{Side, is_buy}
use swirly.Fin.Order.{Order, trade, trade_last, set_level}
use swirly.Fin.MarketSide.{MarketSide, find, write, remove}
use swirly.Fin.MarketSide
use swirly.Fin.MarketSide.Book.{NotIn, IsResting}
use swirly.Fin.MarketSide.Write.{find-All}
use swirly.Fin.MarketSide.Amend.{Reduces, take_order-Reduces, take_order-id}
use swirly.Fin.Market.{Market, find_order, side, with_side, take_order, lift, set_last}
use swirly.Fin.Market.Valid.{IsValid, Rests}
use swirly.Fin.Market.Book.{take_order-IsValid}

find-first : (o : Order) (os : List Order) → find o.id (o ∷ os) ≡ some o
unfolding find
find-first o os = ground arith

write-first : (o o' : Order) (os : List Order) → o'.id ≡ o.id → write o' (o ∷ os) ≡ o' ∷ os
unfolding write
write-first o o' os h = ground arith

remove-first : (o : Order) (os : List Order) → remove o.id (o ∷ os) ≡ os
unfolding remove
remove-first o os = ground arith

pub find_absent : (id : ℕ) (xs : List Order) → NotIn id xs → find id xs ≡ none
unfolding find
find_absent id [] f = refl
find_absent id (x ∷ xs) f = ground (arith, find_absent id xs f.1)

apart_first : (o : Order) (os bs : List Order) → All (λ b. NotIn b.id (o ∷ os)) bs → NotIn o.id bs
apart_first o os [] a = tt
apart_first o os (b ∷ bs) a = (λ e. a.0.0 (sym e), apart_first o os bs a.1)

-- The orders of a side once lots have been taken from the first of them.
abbrev pub TakesFirst : Order → List Order → ℤ → Order → List Order → Type 0
TakesFirst o os lots o' ys =
    ((lots <ℤ o.resd_lots) × (ys ≡ o' ∷ os)) ⊎ ((o.resd_lots ≤ℤ lots) × (ys ≡ os))

takes_first :
    (sd : Side) (s : MarketSide) (o : Order) (os : List Order) (lots : ℤ) (r : MarketSide × Order)
    → s.orders ≡ o ∷ os
    → r.1.id ≡ o.id
    → Reduces sd s o lots r
    → TakesFirst o os lots r.1 r.0.orders
takes_first sd s o os lots r e i (v, inl (lt, w)) = inl (lt, w ∙ rw e (write-first o r.1 os i))
takes_first sd s o os lots r e i (v, inr (ge, w)) = inr (ge, w ∙ rw e (remove-first o os))

-- The side that a taker leaves alone.
abbrev pub other : Side → Market → MarketSide
other sd m = if is_buy sd then m.offer_side else m.bid_side

-- What a take leaves: a valid market, the other side the same, and the first order smaller or gone.
pub record Taken (sd : Side) (m : Market) (o : Order) (os : List Order) (lots : ℤ)
    (r : Market × Order) : Type 0 where
  pub valid : IsValid r.0
  pub same : other sd r.0 ≡ other sd m
  pub price : r.1.ticks ≡ o.ticks
  pub first : TakesFirst o os lots r.1 (side r.0 sd).orders

reduce_level-ticks :
    (s : MarketSide) (key : ℤ) (o : Order) (d : ℤ)
    → (MarketSide.reduce_level s key o d).1.ticks ≡ o.ticks
unfolding MarketSide.reduce_level MarketSide.remove_at set_level
reduce_level-ticks s key o d = ground arith

take_order-ticks :
    (s : MarketSide) (o : Order) (lots : ℤ) (now : ℕ)
    → (MarketSide.take_order s o lots now).1.ticks ≡ o.ticks
unfolding MarketSide.take_order trade_last trade
take_order-ticks s o lots now = elim (Option-cases o.level) [
  | inl e ↦ rw e
  | inr (k, e) ↦ rw e (reduce_level-ticks s k o lots)
]

-- Taking from the first order of the bids,
take_first_bid :
    (m : Market) (o : Order) (os : List Order) (lots : ℤ) (now : ℕ)
    → IsValid m
    → m.bid_side.orders ≡ o ∷ os
    → pos 0 ≤ℤ lots
    → Taken Side.buy m o os lots (take_order m o lots now)
unfolding take_order side with_side
take_first_bid m o os lots now v e h =
    let f : find o.id m.bid_side.orders ≡ some o = rw e (find-first o os) in
    let s = (find-All (IsResting Side.buy) o m.bid_side.orders f v.bids.resting).on_side in
    let valid = take_order-IsValid m o lots now v (Rests.on_bid s f) h in
    let r = take_order-Reduces Side.buy m.bid_side o lots now v.bids f h in
    subst (λ sd. Taken Side.buy m o os lots (at sd)) (sym s)
      (record {
        valid = subst (λ sd. IsValid (at sd).0) s valid;
        same = refl;
        price = take_order-ticks m.bid_side o lots now;
        first =
            takes_first Side.buy m.bid_side o os lots _ e (take_order-id m.bid_side o lots now) r;
      })
  where
    at : Side → Market × Order
    at sd = set_last lots now (lift m sd (MarketSide.take_order (side m sd) o lots now))

-- and of the offers.
take_first_offer :
    (m : Market) (o : Order) (os : List Order) (lots : ℤ) (now : ℕ)
    → IsValid m
    → m.offer_side.orders ≡ o ∷ os
    → pos 0 ≤ℤ lots
    → Taken Side.sell m o os lots (take_order m o lots now)
unfolding take_order side with_side
take_first_offer m o os lots now v e h =
    let f : find o.id m.offer_side.orders ≡ some o = rw e (find-first o os) in
    let s = (find-All (IsResting Side.sell) o m.offer_side.orders f v.offers.resting).on_side in
    let valid = take_order-IsValid m o lots now v (Rests.on_offer s f) h in
    let r = take_order-Reduces Side.sell m.offer_side o lots now v.offers f h in
    subst (λ sd. Taken Side.sell m o os lots (at sd)) (sym s)
      (record {
        valid = subst (λ sd. IsValid (at sd).0) s valid;
        same = refl;
        price = take_order-ticks m.offer_side o lots now;
        first =
            takes_first Side.sell m.offer_side o os lots _ e (take_order-id m.offer_side o lots now)
              r;
      })
  where
    at : Side → Market × Order
    at sd = set_last lots now (lift m sd (MarketSide.take_order (side m sd) o lots now))

abbrev pub IsTradable : Side → Type 0
IsTradable sd = (sd ≡ Side.buy) ⊎ (sd ≡ Side.sell)

-- Taking from the first order of either side.
pub take_order-Taken :
    (sd : Side) (m : Market) (o : Order) (os : List Order) (lots : ℤ) (now : ℕ)
    → IsTradable sd
    → IsValid m
    → (side m sd).orders ≡ o ∷ os
    → pos 0 ≤ℤ lots
    → Taken sd m o os lots (take_order m o lots now)
unfolding side
take_order-Taken sd m o os lots now (inl b) v e h =
    subst (λ x. Taken x m o os lots (take_order m o lots now)) (sym b)
      (take_first_bid m o os lots now v (subst (λ x. (side m x).orders ≡ o ∷ os) b e) h)
take_order-Taken sd m o os lots now (inr b) v e h =
    subst (λ x. Taken x m o os lots (take_order m o lots now)) (sym b)
      (take_first_offer m o os lots now v (subst (λ x. (side m x).orders ≡ o ∷ os) b e) h)

-- The market finds the first order of a side.
pub find_order-first :
    (sd : Side) (m : Market) (o : Order) (os : List Order)
    → IsTradable sd
    → IsValid m
    → (side m sd).orders ≡ o ∷ os
    → find_order m o.id ≡ some o
unfolding find_order side
find_order-first sd m o os (inl b) v e =
    let at : m.bid_side.orders ≡ o ∷ os = subst (λ x. (side m x).orders ≡ o ∷ os) b e in
    let hit : find o.id m.bid_side.orders ≡ some o =
      subst (λ x. find o.id x ≡ some o) (sym at) (find-first o os) in
    ground (arith, hit)
find_order-first sd m o os (inr b) v e =
    let at : m.offer_side.orders ≡ o ∷ os = subst (λ x. (side m x).orders ≡ o ∷ os) b e in
    let off : NotIn o.id m.bid_side.orders =
      apart_first o os m.bid_side.orders
        (subst (λ x. All (λ b. NotIn b.id x) m.bid_side.orders) at v.apart) in
    let hit : find o.id m.offer_side.orders ≡ some o =
      subst (λ x. find o.id x ≡ some o) (sym at) (find-first o os) in
    ground (arith, find_absent o.id m.bid_side.orders off, hit)
