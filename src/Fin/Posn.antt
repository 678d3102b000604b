-- ===== src/Fin/Posn.antt =====
-- swirly/fin/Posn.hpp and Posn.cpp: an account's position in a market.
pub mod Net
pub mod Tests
use swirly.Base.{ℕ, Bool, ◌||◌, if◌then◌else◌}
use swirly.Base.Int.{ℤ, pos, neg, ◌+ℤ◌, ◌-ℤ◌, ltb_ℤ, leb_ℤ}
use swirly.Fin.Types.{Side, is_buy, cost}

pub record Posn : Type 0 where
  pub accnt : ℕ
  pub market_id : ℕ
  pub instr : ℕ
  pub settl_day : ℕ
  pub buy_lots : ℤ
  pub buy_cost : ℤ
  pub sell_lots : ℤ
  pub sell_cost : ℤ
  pub net_cost : ℤ

-- The second constructor, of an empty position.
unfoldable pub make : ℕ → ℕ → ℕ → ℕ → Posn
make accnt market_id instr settl_day = record {
  accnt = accnt;
  market_id = market_id;
  instr = instr;
  settl_day = settl_day;
  buy_lots = pos 0;
  buy_cost = pos 0;
  sell_lots = pos 0;
  sell_cost = pos 0;
  net_cost = pos 0 -ℤ pos 0;
}

unfoldable pub net_lots : Posn → ℤ
net_lots p = p.buy_lots -ℤ p.sell_lots

-- `add_buy(Lots, Cost)`
unfoldable pub add_buy_cost : ℤ → ℤ → Posn → Posn
add_buy_cost lots cost p = record p {
  buy_lots = p.buy_lots +ℤ lots;
  buy_cost = p.buy_cost +ℤ cost;
  net_cost = p.buy_cost +ℤ cost -ℤ p.sell_cost;
}

-- `add_sell(Lots, Cost)`
unfoldable pub add_sell_cost : ℤ → ℤ → Posn → Posn
add_sell_cost lots cost p = record p {
  sell_lots = p.sell_lots +ℤ lots;
  sell_cost = p.sell_cost +ℤ cost;
  net_cost = p.buy_cost -ℤ (p.sell_cost +ℤ cost);
}

-- `add_buy(Lots, Ticks)`
unfoldable pub add_buy : ℤ → ℤ → Posn → Posn
add_buy lots ticks p =
    let net = net_lots p +ℤ lots in
    record p {
      buy_lots = p.buy_lots +ℤ lots;
      buy_cost = p.buy_cost +ℤ cost lots ticks;
      net_cost =
          if ltb_ℤ net (pos 0) || leb_ℤ lots net
          then p.net_cost +ℤ cost lots ticks
          else if ltb_ℤ (pos 0) net
          then cost net ticks
          else pos 0;
    }

-- `add_sell(Lots, Ticks)`
unfoldable pub add_sell : ℤ → ℤ → Posn → Posn
add_sell lots ticks p =
    let net = net_lots p -ℤ lots in
    record p {
      sell_lots = p.sell_lots +ℤ lots;
      sell_cost = p.sell_cost +ℤ cost lots ticks;
      net_cost =
          if ltb_ℤ (pos 0) net || leb_ℤ net (neg lots)
          then p.net_cost -ℤ cost lots ticks
          else if ltb_ℤ net (pos 0)
          then cost net ticks
          else pos 0;
    }

unfoldable pub add_posn : Posn → Posn → Posn
add_posn rhs p =
    add_sell_cost rhs.sell_lots rhs.sell_cost (add_buy_cost rhs.buy_lots rhs.buy_cost p)

unfoldable pub add_trade : Side → ℤ → ℤ → Posn → Posn
add_trade side lots ticks p = if is_buy side then add_buy lots ticks p else add_sell lots ticks p
