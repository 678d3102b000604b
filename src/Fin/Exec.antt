-- ===== src/Fin/Exec.antt =====
-- swirly/fin/Exec.hpp and Exec.cpp: an execution is an order's state at one step, or a trade.
pub mod Sides
use swirly.Base.{ℕ}
use swirly.Base.Int.{ℤ, pos, ◌+ℤ◌, ◌-ℤ◌}
use swirly.Fin.Types.{Side, State, LiqInd, cost, opposite as opposite_side, opposite_liq_ind}

pub record Exec : Type 0 where
  pub accnt : ℕ
  pub market_id : ℕ
  pub instr : ℕ
  pub settl_day : ℕ
  pub id : ℕ
  pub ref : ℕ
  pub side : Side
  pub lots : ℤ
  pub created : ℕ
  pub order_id : ℕ
  pub state : State
  pub ticks : ℤ
  pub resd_lots : ℤ
  pub exec_lots : ℤ
  pub exec_cost : ℤ
  pub last_lots : ℤ
  pub last_ticks : ℤ
  pub min_lots : ℤ
  pub match_id : ℕ
  pub posn_lots : ℤ
  pub posn_cost : ℤ
  pub liq_ind : LiqInd
  pub cpty : ℕ

unfoldable pub revise : ℤ → Exec → Exec
revise lots e =
    let delta = e.lots -ℤ lots in
    record e { state = State.revise; lots = lots; resd_lots = e.resd_lots -ℤ delta }

unfoldable pub cancel : Exec → Exec
cancel e = record e { state = State.cancel; resd_lots = pos 0 }

unfoldable pub posn : ℤ → ℤ → Exec → Exec
posn posn_lots posn_cost e = record e { posn_lots = posn_lots; posn_cost = posn_cost }

-- `trade(sum_lots, sum_cost, last_lots, last_ticks, match_id, liq_ind, cpty)`
unfoldable pub trade : ℤ → ℤ → ℤ → ℤ → ℕ → LiqInd → ℕ → Exec → Exec
trade sum_lots sum_cost last_lots last_ticks match_id liq_ind cpty e = record e {
  state = State.trade;
  resd_lots = e.resd_lots -ℤ sum_lots;
  exec_lots = e.exec_lots +ℤ sum_lots;
  exec_cost = e.exec_cost +ℤ sum_cost;
  last_lots = last_lots;
  last_ticks = last_ticks;
  match_id = match_id;
  liq_ind = liq_ind;
  cpty = cpty;
}

-- `trade(last_lots, last_ticks, match_id, liq_ind, cpty)`
unfoldable pub trade_last : ℤ → ℤ → ℕ → LiqInd → ℕ → Exec → Exec
trade_last last_lots last_ticks match_id liq_ind cpty e =
    trade last_lots (cost last_lots last_ticks) last_lots last_ticks match_id liq_ind cpty e

unfoldable pub opposite : Exec → ℕ → Exec
opposite e id = record e {
  accnt = e.cpty;
  id = id;
  side = opposite_side e.side;
  liq_ind = opposite_liq_ind e.liq_ind;
  cpty = e.accnt;
}
