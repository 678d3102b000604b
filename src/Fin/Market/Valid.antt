-- ===== src/Fin/Market/Valid.antt =====
-- A valid market: both sides valid, ids distinct and all allocated.
use swirly.Base.{
  ℕ, ◌≤◌, ◌≡◌, sym, inl, inr, some, List, [], ◌∷◌, ◌==◌, All, arith, Bool-cases, Option-cases,
}
use mathlib.Core.Path.{subst}
use swirly.Fin.Types.{Side}
use swirly.Fin.Order.{Order}
use swirly.Fin.MarketSide.{find}
use swirly.Fin.MarketSide.Book.{NotIn, Distinct, IsResting, place, okey}
use swirly.Fin.MarketSide.Book
use swirly.Fin.MarketSide.Write.{find-All}
use swirly.Fin.Market.{Market, find_order}

abbrev pub Allocated : Market → Order → Type 0
Allocated m o = o.id ≤ m.max_id

pub record IsValid (m : Market) : Type 0 where
  pub bids : Book.IsValid Side.buy m.bid_side
  pub offers : Book.IsValid Side.sell m.offer_side
  pub bid_ids : All (Allocated m) m.bid_side.orders
  pub offer_ids : All (Allocated m) m.offer_side.orders
  pub apart : All (λ o. NotIn o.id m.offer_side.orders) m.bid_side.orders

-- Where an order that the market finds rests.
pub data Rests (m : Market) (o : Order) : Type 0 where
  on_bid : o.side ≡ Side.buy → find o.id m.bid_side.orders ≡ some o → Rests m o
  on_offer : o.side ≡ Side.sell → find o.id m.offer_side.orders ≡ some o → Rests m o

find-id : (id : ℕ) (o : Order) (xs : List Order) → find id xs ≡ some o → o.id ≡ id
unfolding find
find-id id o [] e = absurd (cc)
find-id id o (x ∷ xs) e = elim (Bool-cases (x.id == id)) [
  | inl hit ↦ ground arith
  | inr miss ↦ find-id id o xs (ground arith)
]

pub find_order-Rests :
    (m : Market) (id : ℕ) (o : Order)
    → IsValid m
    → find_order m id ≡ some o
    → (o.id ≡ id) × Rests m o
unfolding find_order
find_order-Rests m id o v e = elim (Option-cases (find id m.bid_side.orders)) [
  | inl absent ↦
      let there : find id m.offer_side.orders ≡ some o = ground (arith, absent) in
      let own = find-id id o m.offer_side.orders there in
      let at : find o.id m.offer_side.orders ≡ some o =
        subst (λ i. find i m.offer_side.orders ≡ some o) (sym own) there in
      (own, Rests.on_offer (find-All (IsResting Side.sell) o _ at v.offers.resting).on_side at)
  | inr (x, present) ↦
      let there : find id m.bid_side.orders ≡ some o = ground (arith, present) in
      let own = find-id id o m.bid_side.orders there in
      let at : find o.id m.bid_side.orders ≡ some o =
        subst (λ i. find i m.bid_side.orders ≡ some o) (sym own) there in
      (own, Rests.on_bid (find-All (IsResting Side.buy) o _ at v.bids.resting).on_side at)
]
