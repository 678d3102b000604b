-- ===== src/Fin/Market/Book.antt =====
-- Every operation keeps a valid market valid.
use swirly.Base.{ℕ, ◌≤◌, ◌≡◌, refl, sym, ◌⊎◌, inl, inr, List, [], ◌∷◌, All, arith}
use mathlib.Core.Path.{subst}
use swirly.Base.Int.{ℤ, pos, ◌≤ℤ◌, ◌<ℤ◌, ◌+ℤ◌}
use swirly.Fin.Types.{Side}
use swirly.Fin.Order.{Order}
use swirly.Fin.MarketSide.{MarketSide, find, write, remove}
use swirly.Fin.MarketSide
use swirly.Fin.MarketSide.Book.{NotIn}
use swirly.Fin.MarketSide.Insert
use swirly.Fin.MarketSide.Amend
use swirly.Fin.MarketSide.Insert.{insert_order-place, linked, linked-id, place-All, place-NotIn}
use swirly.Fin.MarketSide.Amend.{
  Reduces, take_order-Reduces, revise_order-Reduces, take_order-id, revise_order-id,
}
use swirly.Fin.Market.{
  Market, side, with_side, take_order, insert_order, revise_order, cancel_order, lift, set_last,
}
use swirly.Fin.Market.Valid.{Allocated, IsValid, Rests}
use swirly.Fin.Market.Amends.{NotIn-each_place, Amends, amend_bids, amend_offers}

pub Reduces-Amends :
    (sd : Side) (s : MarketSide) (o : Order) (d : ℤ) (r : MarketSide × Order)
    → r.1.id ≡ o.id
    → Reduces sd s o d r
    → Amends s.orders o r.0.orders
Reduces-Amends sd s o d r i (v, inl (lt, e)) = inl (r.1, i, e)
Reduces-Amends sd s o d r i (v, inr (ge, e)) = inr e

-- Taking lots that are not negative from an order that rests in a valid market leaves a valid
-- market.
pub take_order-IsValid :
    (m : Market) (o : Order) (lots : ℤ) (now : ℕ)
    → IsValid m
    → Rests m o
    → pos 0 ≤ℤ lots
    → IsValid (take_order m o lots now).0
unfolding take_order side with_side
take_order-IsValid m o lots now v rests h = go rests
  where
    at : Side → Market
    at sd = (set_last lots now (lift m sd (MarketSide.take_order (side m sd) o lots now))).0

    go : Rests m o → IsValid (at o.side)
    go (Rests.on_bid s f) =
        let r = take_order-Reduces Side.buy m.bid_side o lots now v.bids f h in
        let a =
          Reduces-Amends Side.buy m.bid_side o lots _ (take_order-id m.bid_side o lots now) r in
        subst (λ sd. IsValid (at sd)) (sym s) (amend_bids m (at Side.buy) o v f r.0 a refl refl)
    go (Rests.on_offer s f) =
        let r = take_order-Reduces Side.sell m.offer_side o lots now v.offers f h in
        let a =
          Reduces-Amends Side.sell m.offer_side o lots _ (take_order-id m.offer_side o lots now)
            r in
        subst (λ sd. IsValid (at sd)) (sym s) (amend_offers m (at Side.sell) o v f r.0 a refl refl)

-- So does revising its lots,
pub revise_order-IsValid :
    (m : Market) (o : Order) (lots : ℤ) (now : ℕ)
    → IsValid m
    → Rests m o
    → IsValid (revise_order m o lots now).0
unfolding revise_order side with_side
revise_order-IsValid m o lots now v rests = go rests
  where
    at : Side → Market
    at sd = (lift m sd (MarketSide.revise_order (side m sd) o lots now)).0

    go : Rests m o → IsValid (at o.side)
    go (Rests.on_bid s f) =
        let r = revise_order-Reduces Side.buy m.bid_side o lots now v.bids f in
        let a =
          Reduces-Amends Side.buy m.bid_side o _ _ (revise_order-id m.bid_side o lots now) r in
        subst (λ sd. IsValid (at sd)) (sym s) (amend_bids m (at Side.buy) o v f r.0 a refl refl)
    go (Rests.on_offer s f) =
        let r = revise_order-Reduces Side.sell m.offer_side o lots now v.offers f in
        let a =
          Reduces-Amends Side.sell m.offer_side o _ _ (revise_order-id m.offer_side o lots now) r in
        subst (λ sd. IsValid (at sd)) (sym s) (amend_offers m (at Side.sell) o v f r.0 a refl refl)

-- and cancelling it.
pub cancel_order-IsValid :
    (m : Market) (o : Order) (now : ℕ) → IsValid m → Rests m o → IsValid (cancel_order m o now).0
unfolding cancel_order side with_side
cancel_order-IsValid m o now v rests = go rests
  where
    at : Side → Market
    at sd = (lift m sd (MarketSide.cancel_order (side m sd) o now)).0

    go : Rests m o → IsValid (at o.side)
    go (Rests.on_bid s f) =
        let r = Amend.cancel_order-IsValid Side.buy m.bid_side o now v.bids f in
        subst (λ sd. IsValid (at sd)) (sym s)
          (amend_bids m (at Side.buy) o v f r.0 (inr r.1) refl refl)
    go (Rests.on_offer s f) =
        let r = Amend.cancel_order-IsValid Side.sell m.offer_side o now v.offers f in
        subst (λ sd. IsValid (at sd)) (sym s)
          (amend_offers m (at Side.sell) o v f r.0 (inr r.1) refl refl)

-- An order that a market can take: new, with lots left.
pub record CanInsert (m : Market) (o : Order) : Type 0 where
  pub sided : (o.side ≡ Side.buy) ⊎ (o.side ≡ Side.sell)
  pub fresh_bid : NotIn o.id m.bid_side.orders
  pub fresh_offer : NotIn o.id m.offer_side.orders
  pub allocated : o.id ≤ m.max_id
  pub open_lots : pos 0 <ℤ o.resd_lots
  pub filled_lots : pos 0 ≤ℤ o.exec_lots
  pub total_lots : o.resd_lots +ℤ o.exec_lots ≡ o.lots

-- Inserting an order that a valid market can take, with a new id that is allocated, some lots
-- left and its lots accounted for, leaves a valid market.
pub insert_order-IsValid :
    (m : Market) (o : Order) → IsValid m → CanInsert m o → IsValid (insert_order m o)
unfolding insert_order side with_side
insert_order-IsValid m o v c = go c.sided
  where
    at : Side → Market
    at sd = with_side m sd (MarketSide.insert_order (side m sd) o)

    go : (o.side ≡ Side.buy) ⊎ (o.side ≡ Side.sell) → IsValid (at o.side)
    go (inl s) =
        let valid = Insert.insert_order-IsValid Side.buy m.bid_side o v.bids (record {
          fresh = c.fresh_bid;
          on_side = s;
          open_lots = c.open_lots;
          filled_lots = c.filled_lots;
          total_lots = c.total_lots;
        }) in
        let (_, orders) =
          insert_order-place m.bid_side o v.bids.sorted v.bids.distinct v.bids.aggregated in
        subst (λ sd. IsValid (at sd)) (sym s)
          (record {
            bids = valid;
            offers = v.offers;
            bid_ids =
                rw orders
                  (place-All (Allocated m) (linked o) _ (rw (linked-id o) c.allocated) v.bid_ids);
            offer_ids = v.offer_ids;
            apart = rw orders (
                place-All (λ x. NotIn x.id m.offer_side.orders) (linked o) _
                  (rw (linked-id o) c.fresh_offer) v.apart);
          })
    go (inr s) =
        let valid = Insert.insert_order-IsValid Side.sell m.offer_side o v.offers (record {
          fresh = c.fresh_offer;
          on_side = s;
          open_lots = c.open_lots;
          filled_lots = c.filled_lots;
          total_lots = c.total_lots;
        }) in
        let (_, orders) =
          insert_order-place m.offer_side o v.offers.sorted v.offers.distinct v.offers.aggregated in
        subst (λ sd. IsValid (at sd)) (sym s)
          (record {
            bids = v.bids;
            offers = valid;
            bid_ids = v.bid_ids;
            offer_ids =
                rw orders
                  (place-All (Allocated m) (linked o) _ (rw (linked-id o) c.allocated) v.offer_ids);
            apart =
                rw orders
                  (NotIn-each_place o m.offer_side.orders m.bid_side.orders v.apart c.fresh_bid);
          })

All-le : (m n : ℕ) (xs : List Order) → m ≤ n → All (λ o. o.id ≤ m) xs → All (λ o. o.id ≤ n) xs
All-le m n [] h a = tt
All-le m n (x ∷ xs) h a = (omega (arith, a.0), All-le m n xs h a.1)

-- A market with more ids allocated is as valid.
pub more_ids : (m : Market) (n : ℕ) → m.max_id ≤ n → IsValid m → IsValid (record m { max_id = n })
more_ids m n h v = record {
  bids = v.bids;
  offers = v.offers;
  bid_ids = All-le m.max_id n m.bid_side.orders h v.bid_ids;
  offer_ids = All-le m.max_id n m.offer_side.orders h v.offer_ids;
  apart = v.apart;
}
