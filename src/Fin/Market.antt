-- ===== src/Fin/Market.antt =====
-- swirly/fin/Market.hpp: a market is two sides of a book and a counter of ids.
pub mod Valid
pub mod Amends
pub mod Book
pub mod Take
pub mod Undo
use swirly.Base.{ℕ, suc, Option, none, some, List, [], ◌∷◌, if◌then◌else◌}
use swirly.Base.Int.{ℤ, pos}
use swirly.Fin.Types.{Side, is_buy}
use swirly.Fin.Order.{Order}
use swirly.Fin.MarketSide.{MarketSide}
use swirly.Fin.MarketSide

pub record Market : Type 0 where
  pub id : ℕ
  pub instr : ℕ
  pub settl_day : ℕ
  pub state : ℕ
  pub last_lots : ℤ
  pub last_ticks : ℤ
  pub last_time : ℕ
  pub bid_side : MarketSide
  pub offer_side : MarketSide
  pub max_id : ℕ

unfoldable pub make : ℕ → ℕ → ℕ → ℕ → Market
make id instr settl_day state = record {
  id = id;
  instr = instr;
  settl_day = settl_day;
  state = state;
  last_lots = pos 0;
  last_ticks = pos 0;
  last_time = 0;
  bid_side = MarketSide.empty;
  offer_side = MarketSide.empty;
  max_id = 0;
}

unfoldable pub set_state : Market → ℕ → Market
set_state m state = record m { state = state }

unfoldable pub side : Market → Side → MarketSide
side m sd = if is_buy sd then m.bid_side else m.offer_side

-- A write through the reference that `side` returns.
unfoldable pub with_side : Market → Side → MarketSide → Market
with_side m sd s = if is_buy sd then record m { bid_side = s } else record m { offer_side = s }

abbrev pub lift : Market → Side → MarketSide × Order → Market × Order
lift m sd (s, o) = (with_side m sd s, o)

unfoldable pub insert_order : Market → Order → Market
insert_order m o = with_side m o.side (MarketSide.insert_order (side m o.side) o)

unfoldable pub remove_order : Market → Order → Market × Order
remove_order m o = lift m o.side (MarketSide.remove_order (side m o.side) o)

unfoldable pub create_order : Market → Order → ℕ → Market
create_order m o now = with_side m o.side (MarketSide.create_order (side m o.side) o now)

unfoldable pub revise_order : Market → Order → ℤ → ℕ → Market × Order
revise_order m o lots now = lift m o.side (MarketSide.revise_order (side m o.side) o lots now)

unfoldable pub cancel_order : Market → Order → ℕ → Market × Order
cancel_order m o now = lift m o.side (MarketSide.cancel_order (side m o.side) o now)

abbrev pub set_last : ℤ → ℕ → Market × Order → Market × Order
set_last lots now (m, o) = (record m { last_lots = lots; last_ticks = o.ticks; last_time = now }, o)

unfoldable pub take_order : Market → Order → ℤ → ℕ → Market × Order
take_order m o lots now =
    set_last lots now (lift m o.side (MarketSide.take_order (side m o.side) o lots now))

unfoldable pub alloc_id : Market → ℕ × Market
alloc_id m = (suc m.max_id, record m { max_id = suc m.max_id })

-- The object of an order that rests in this market, by its id.
unfoldable pub find_order : Market → ℕ → Option Order
find_order m id = elim (MarketSide.find id m.bid_side.orders) [
  | some o ↦ some o
  | none ↦ MarketSide.find id m.offer_side.orders
]
