-- ===== src/Fin/Market/Undo.antt =====
-- Removing from a market an order just inserted.
use swirly.Base.{◌≡◌, sym, ◌⊎◌, inl, inr, some, arith}
use mathlib.Core.Path.{subst}
use swirly.Fin.Types.{Side}
use swirly.Fin.Order.{Order, set_level}
use swirly.Fin.MarketSide.{MarketSide, find}
use swirly.Fin.MarketSide
use swirly.Fin.MarketSide.Insert.{linked}
use swirly.Fin.MarketSide.Undo
use swirly.Fin.Market.{Market, find_order, side, with_side, insert_order, remove_order}
use swirly.Fin.Market.Valid.{IsValid}
use swirly.Fin.Market.Book.{CanInsert}
use swirly.Fin.Market.Take.{find_absent}

abbrev pub Undoes : Market → Order → Type 0
Undoes m o =
    (find_order (insert_order m o) o.id ≡ some (linked o))
    × ((remove_order (insert_order m o) (linked o)).0 ≡ m)

bid_back : (m : Market) (s : MarketSide) → s ≡ m.bid_side → record m { bid_side = s } ≡ m
bid_back m s e = rw e

offer_back : (m : Market) (s : MarketSide) → s ≡ m.offer_side → record m { offer_side = s } ≡ m
offer_back m s e = rw e

-- In a valid market that can take an order, the market finds, after insert_order, the object of
-- that order under its id, and remove_order of that object gives the market back as it was
-- before.
pub remove_order-insert_order : (m : Market) (o : Order) → IsValid m → CanInsert m o → Undoes m o
unfolding insert_order remove_order side with_side find_order set_level
remove_order-insert_order m o v c = go c.sided
  where
    ins : Side → Market
    ins sd = with_side m sd (MarketSide.insert_order (side m sd) o)

    Back : Side → Type 0
    Back sd =
        (find_order (ins sd) o.id ≡ some (linked o))
        × (with_side (ins sd) sd (MarketSide.remove_order (side (ins sd) sd) (linked o)).0 ≡ m)

    go : (o.side ≡ Side.buy) ⊎ (o.side ≡ Side.sell) → Back o.side
    go (inl s) =
        let (found, back) = Undo.remove_order-insert_order Side.buy m.bid_side o v.bids (record {
          fresh = c.fresh_bid;
          on_side = s;
          open_lots = c.open_lots;
          filled_lots = c.filled_lots;
          total_lots = c.total_lots;
        }) in
        subst Back (sym s) (ground (arith, found), bid_back m _ back)
    go (inr s) =
        let (found, back) =
          Undo.remove_order-insert_order Side.sell m.offer_side o v.offers (record {
            fresh = c.fresh_offer;
            on_side = s;
            open_lots = c.open_lots;
            filled_lots = c.filled_lots;
            total_lots = c.total_lots;
          }) in
        let absent = find_absent o.id m.bid_side.orders c.fresh_bid in
        subst Back (sym s) (ground (arith, found, absent), offer_back m _ back)
