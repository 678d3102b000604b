-- ===== src/Lob/Batch/Cancelled.antt =====
-- What a cancelled order leaves in its market.
use swirly.Base.{
  ℕ, ◌≡◌, refl, sym, inl, inr, none, some, List, [], ◌∷◌, ◌==◌, All, arith, Bool-cases,
}
use mathlib.Core.Path.{subst}
use swirly.Fin.Types.{Side}
use swirly.Fin.Order.{Order}
use swirly.Fin.MarketSide.{MarketSide, find, remove}
use swirly.Fin.MarketSide
use swirly.Fin.MarketSide.Book.{NotIn}
use swirly.Fin.MarketSide.Remove.{NotIn-remove, find-nil}
use swirly.Fin.MarketSide.Amend
use swirly.Fin.Market.{Market, find_order, side, with_side, lift}
use swirly.Fin.Market
use swirly.Fin.Market.Valid.{IsValid, Rests}

find-NotIn : (id : ℕ) (xs : List Order) → NotIn id xs → find id xs ≡ none
unfolding find
find-NotIn id [] h = refl
find-NotIn id (x ∷ xs) h = ground (arith, find-NotIn id xs h.1)

find-ne_none : (o : Order) (xs : List Order) → find o.id xs ≡ some o → NotIn o.id xs → ⊥
find-ne_none o xs f h = cc (f, find-NotIn o.id xs h)

NotIn-apart :
    (o : Order) (xs ys : List Order)
    → All (λ x. NotIn x.id ys) xs
    → find o.id ys ≡ some o
    → NotIn o.id xs
NotIn-apart o [] ys a f = tt
NotIn-apart o (x ∷ xs) ys a f =
    ((λ e. find-ne_none o ys f (subst (λ i. NotIn i ys) e a.0)), NotIn-apart o xs ys a.1 f)

NotIn-of_apart :
    (o : Order) (xs ys : List Order)
    → All (λ x. NotIn x.id ys) xs
    → find o.id xs ≡ some o
    → NotIn o.id ys
unfolding find
NotIn-of_apart o [] ys a f = absurd (find-nil o f)
NotIn-of_apart o (x ∷ xs) ys a f = elim (Bool-cases (x.id == o.id)) [
  | inl hit ↦ let same : x.id ≡ o.id = ground arith in subst (λ i. NotIn i ys) same a.0
  | inr miss ↦ NotIn-of_apart o xs ys a.1 (ground (arith, f))
]

find_order-none :
    (m : Market) (id : ℕ)
    → NotIn id m.bid_side.orders
    → NotIn id m.offer_side.orders
    → find_order m id ≡ none
unfolding find_order
find_order-none m id b o =
    ground (arith, find-NotIn id m.bid_side.orders b, find-NotIn id m.offer_side.orders o)

pub cancel_order-gone :
    (m : Market) (o : Order) (now : ℕ)
    → IsValid m
    → Rests m o
    → find_order (Market.cancel_order m o now).0 o.id ≡ none
unfolding Market.cancel_order Market.side Market.with_side
cancel_order-gone m o now v rests = go rests
  where
    at : Side → Market
    at sd = (lift m sd (MarketSide.cancel_order (side m sd) o now)).0

    go : Rests m o → find_order (at o.side) o.id ≡ none
    go (Rests.on_bid s f) =
        let r = Amend.cancel_order-IsValid Side.buy m.bid_side o now v.bids f in
        subst (λ sd. find_order (at sd) o.id ≡ none) (sym s)
          (find_order-none (at Side.buy) o.id
            (rw r.1 (NotIn-remove o.id m.bid_side.orders v.bids.distinct))
            (NotIn-of_apart o m.bid_side.orders m.offer_side.orders v.apart f))
    go (Rests.on_offer s f) =
        let r = Amend.cancel_order-IsValid Side.sell m.offer_side o now v.offers f in
        subst (λ sd. find_order (at sd) o.id ≡ none) (sym s)
          (find_order-none (at Side.sell) o.id
            (NotIn-apart o m.bid_side.orders m.offer_side.orders v.apart f)
            (rw r.1 (NotIn-remove o.id m.offer_side.orders v.offers.distinct)))
