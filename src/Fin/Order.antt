-- ===== src/Fin/Order.antt =====
-- swirly/fin/Order.hpp and the fields of swirly/fin/Request.hpp: an order and its state changes.
use swirly.Base.{ℕ, Bool, Option, none}
use swirly.Base.Int.{ℤ, pos, ◌+ℤ◌, ◌-ℤ◌, ◌==ℤ◌}
use swirly.Fin.Types.{Side, State, cost}

-- `level` is the pointer to the order's price level, which is known by its key; a symbol and a
-- reference are the numbers that their bytes spell, 0 when empty.
pub record Order : Type 0 where
  pub accnt : ℕ
  pub market_id : ℕ
  pub instr : ℕ
  pub settl_day : ℕ
  pub id : ℕ
  pub ref : ℕ
  pub side : Side
  pub lots : ℤ
  pub created : ℕ
  pub level : Option ℤ
  pub state : State
  pub ticks : ℤ
  pub resd_lots : ℤ
  pub exec_lots : ℤ
  pub exec_cost : ℤ
  pub last_lots : ℤ
  pub last_ticks : ℤ
  pub min_lots : ℤ
  pub modified : ℕ

-- The second constructor, of a new order.
unfoldable pub make : ℕ → ℕ → ℕ → ℕ → ℕ → ℕ → Side → ℤ → ℤ → ℤ → ℕ → Order
make accnt market_id instr settl_day id ref side lots ticks min_lots created = record {
  accnt = accnt;
  market_id = market_id;
  instr = instr;
  settl_day = settl_day;
  id = id;
  ref = ref;
  side = side;
  lots = lots;
  created = created;
  level = none;
  state = State.new;
  ticks = ticks;
  resd_lots = lots;
  exec_lots = pos 0;
  exec_cost = pos 0;
  last_lots = pos 0;
  last_ticks = pos 0;
  min_lots = min_lots;
  modified = created;
}

unfoldable pub done : Order → Bool
done o = o.resd_lots ==ℤ pos 0

unfoldable pub set_level : Option ℤ → Order → Order
set_level level o = record o { level = level }

unfoldable pub create : ℕ → Order → Order
create now o = record o {
  state = State.new;
  resd_lots = o.lots;
  exec_lots = pos 0;
  exec_cost = pos 0;
  modified = now;
}

unfoldable pub revise : ℤ → ℕ → Order → Order
revise lots now o =
    let delta = o.lots -ℤ lots in
    record o { state = State.revise; lots = lots; resd_lots = o.resd_lots -ℤ delta; modified = now }

unfoldable pub cancel : ℕ → Order → Order
cancel now o = record o { state = State.cancel; resd_lots = pos 0; modified = now }

-- `trade(taken_lots, taken_cost, last_lots, last_ticks, now)`
unfoldable pub trade : ℤ → ℤ → ℤ → ℤ → ℕ → Order → Order
trade taken_lots taken_cost last_lots last_ticks now o = record o {
  state = State.trade;
  resd_lots = o.resd_lots -ℤ taken_lots;
  exec_lots = o.exec_lots +ℤ taken_lots;
  exec_cost = o.exec_cost +ℤ taken_cost;
  last_lots = last_lots;
  last_ticks = last_ticks;
  modified = now;
}

-- `trade(last_lots, last_ticks, now)`
unfoldable pub trade_last : ℤ → ℤ → ℕ → Order → Order
trade_last last_lots last_ticks now o =
    trade last_lots (cost last_lots last_ticks) last_lots last_ticks now o
