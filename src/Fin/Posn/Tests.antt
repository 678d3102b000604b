-- ===== src/Fin/Posn/Tests.antt =====
-- Positions and the queue on concrete inputs.
use swirly.Base.{ℕ, ◌<◌, ◌≡◌, refl, ◌⊎◌, List, [], ◌∷◌, map, length, leb, if◌then◌else◌, arith, ◌+◌}
use swirly.Base.Int.{pos, negsuc, ◌+ℤ◌, ◌-ℤ◌}
use swirly.Fin.Types.{Side, State, LiqInd}
use swirly.Fin.Exec.{Exec}
use swirly.Fin.Posn.{Posn, net_lots, add_trade, add_buy, add_sell}
use swirly.Fin.Posn.Net.{
  mirror, add_sell-mirror, Buys, bought_cost, add_buy-bought_cost, signed, add_trade-net,
}
use swirly.Fin.MsgQueue.{Msg, MsgQueue, complete, thrown, create_execs, archive_trades, steps}
use swirly.Fin.MsgQueue.Post.{posted, create_execs-all}
use swirly.Fin.MsgQueue.Archive.{Archived, archive_trades-all}

-- A trade of 4 lots by account 7 with account 8.
abbrev pub a_trade : Exec
a_trade = record {
  accnt = 7;
  market_id = 1;
  instr = 2;
  settl_day = 0;
  id = 9;
  ref = 0;
  side = Side.buy;
  lots = pos 4;
  created = 0;
  order_id = 0;
  state = State.trade;
  ticks = pos 10;
  resd_lots = pos 0;
  exec_lots = pos 4;
  exec_cost = pos 40;
  last_lots = pos 4;
  last_ticks = pos 10;
  min_lots = pos 1;
  match_id = 0;
  posn_lots = pos 0;
  posn_cost = pos 0;
  liq_ind = LiqInd.maker;
  cpty = 8;
}

-- A position short of 3 lots sold at 10.
abbrev short : Posn
short = record {
  accnt = 7;
  market_id = 1;
  instr = 2;
  settl_day = 0;
  buy_lots = pos 0;
  buy_cost = pos 0;
  sell_lots = pos 3;
  sell_cost = pos 30;
  net_cost = negsuc 29;
}

short-lots : net_lots short ≡ negsuc 2
unfolding net_lots ◌-ℤ◌
short-lots = refl

short-crosses : Buys (net_lots short) (pos 5)
unfolding net_lots ◌-ℤ◌ ◌+ℤ◌
short-crosses = Buys.crosses (omega arith) (omega arith)

add_trade-net_example :
    (net_lots (add_trade Side.buy (pos 3) (pos 11) short)
      ≡ net_lots short +ℤ signed Side.buy (pos 3))
    × (net_lots (add_trade Side.buy (pos 3) (pos 11) short) ≡ pos 0
        → (add_trade Side.buy (pos 3) (pos 11) short).net_cost ≡ pos 0)
add_trade-net_example = add_trade-net Side.buy (pos 3) (pos 11) short (omega arith)

add_buy-bought_cost_example :
    (add_buy (pos 5) (pos 11) short).net_cost
    ≡ bought_cost (net_lots short) (pos 5) short.net_cost (pos 11) short-crosses
add_buy-bought_cost_example = add_buy-bought_cost (pos 5) (pos 11) short (omega arith) short-crosses

add_sell-mirror_example :
    mirror (add_sell (pos 5) (pos 11) short) ≡ add_buy (pos 5) (pos 11) (mirror short)
add_sell-mirror_example = add_sell-mirror (pos 5) (pos 11) short

abbrev small_queue : MsgQueue
small_queue = record { capacity = 2; msgs = Msg.update_market 1 0 ∷ [] }

create_execs-all_example : create_execs (a_trade ∷ []) small_queue ≡ (
    if leb (length small_queue.msgs + length (a_trade ∷ [])) small_queue.capacity
    then complete (posted small_queue (map Msg.create_exec (a_trade ∷ [])))
    else thrown small_queue)
create_execs-all_example = create_execs-all (a_trade ∷ []) small_queue (omega arith)

abbrev two_ids : List ℕ
two_ids = 5 ∷ 6 ∷ []

archive_trades-all_example :
    (archive_trades 1 two_ids 100 small_queue ≡ thrown small_queue)
      × (small_queue.capacity < length small_queue.msgs + steps (length two_ids))
    ⊎ Archived two_ids small_queue (archive_trades 1 two_ids 100 small_queue)
archive_trades-all_example =
    archive_trades-all 1 two_ids 100 small_queue (omega arith) (omega arith)
