-- ===== src/Lob/Engine.antt =====
-- swirly/lob/App.cpp: the calls of `App::Impl` that place, match, revise and cancel orders.
pub mod Fills
pub mod Liquidity
pub mod Matched
pub mod Issued
use swirly.Base.{
  ℕ, Bool, true, false, not, ◌&&◌, ◌||◌, Option, none, some, List, [], ◌∷◌, ◌++◌, ◌+◌, ◌==◌,
  if◌then◌else◌, ltb,
}
use swirly.Base.Int.{ℤ, pos, ◌+ℤ◌, ◌-ℤ◌, ltb_ℤ, ◌==ℤ◌}
use swirly.Fin.Types.{Side, State, LiqInd, Direct, cost, is_buy}
use swirly.Fin.Order.{Order, done}
use swirly.Fin.Order
use swirly.Fin.MarketSide.{MarketSide}
use swirly.Fin.Market.{Market, alloc_id, find_order}
use swirly.Fin.Market
use swirly.Fin.Exec.{Exec}
use swirly.Fin.Exec
use swirly.Fin.Posn.{Posn, net_lots, add_trade}
use swirly.Fin.MsgQueue.{MsgQueue, do_create_exec, create_execs}
use swirly.Lob.Sess.{Sess, OrderKey, exists}
use swirly.Lob.Sess
use swirly.Lob.Response.{Response, set_market, set_posn, insert_exec}
use swirly.Lob.Response

-- The sessions, each under its account.
unfoldable pub find_sess : ℕ → List Sess → Option Sess
find_sess accnt [] = none
find_sess accnt (s ∷ ss) =
    let rest = find_sess accnt ss in if s.accnt == accnt then some s else rest

-- `sess(accnt)`: the session, made if there is none.
unfoldable pub sess : ℕ → ℕ → List Sess → Sess × List Sess
sess max_execs accnt ss = elim (find_sess accnt ss) [
  | some s ↦ (s, ss)
  | none ↦ let s = Sess.make accnt max_execs in (s, s ∷ ss)
]

-- A change through a reference to the session of an account.
unfoldable pub with_sess : ℕ → (Sess → Sess) → List Sess → List Sess
with_sess accnt f [] = []
with_sess accnt f (s ∷ ss) =
    let rest = with_sess accnt f ss in if s.accnt == accnt then f s ∷ ss else s ∷ rest

-- The engine in a call: the market that the call refers to, the sessions and the queue. A call also
-- refers to a session, which stands among `sesss` under its account.
pub record Engine : Type 0 where
  pub mq : MsgQueue
  pub bus_day : ℕ → ℕ
  pub max_execs : ℕ
  pub market : Market
  pub sesss : List Sess

pub data Error : Type 0 where
  ref_already_exists market_closed invalid_lots too_late order_not_found : Error
  not_found invalid queue_full already_exists : Error

-- How a call ended; what it changed before it threw stays changed.
pub record Outcome : Type 0 where
  pub error : Option Error
  pub engine : Engine
  pub resp : Response

abbrev pub ok : Engine → Response → Outcome
ok e r = record { error = none; engine = e; resp = r }

abbrev pub throw : Error → Engine → Response → Outcome
throw x e r = record { error = some x; engine = e; resp = r }

unfoldable pub spread : Order → Order → Direct → ℤ
spread taker maker Direct.paid = maker.ticks -ℤ taker.ticks
spread taker maker Direct.given = taker.ticks -ℤ maker.ticks
spread taker maker Direct.none = taker.ticks -ℤ maker.ticks

unfoldable pub new_exec : Order → ℕ → ℕ → Exec
new_exec o id created = record {
  accnt = o.accnt;
  market_id = o.market_id;
  instr = o.instr;
  settl_day = o.settl_day;
  id = id;
  ref = o.ref;
  side = o.side;
  lots = o.lots;
  created = created;
  order_id = o.id;
  state = o.state;
  ticks = o.ticks;
  resd_lots = o.resd_lots;
  exec_lots = o.exec_lots;
  exec_cost = o.exec_cost;
  last_lots = o.last_lots;
  last_ticks = o.last_ticks;
  min_lots = o.min_lots;
  match_id = 0;
  posn_lots = pos 0;
  posn_cost = pos 0;
  liq_ind = LiqInd.none;
  cpty = 0;
}

-- swirly/lob/Match.hxx. The maker's order is known by its id, and its position by its account.
pub record Match : Type 0 where
  pub lots : ℤ
  pub maker_order : ℕ
  pub maker_trade : Exec
  pub maker_posn : ℕ
  pub taker_trade : Exec

abbrev pub min_ℤ : ℤ → ℤ → ℤ
min_ℤ a b = if ltb_ℤ b a then b else a

-- What `match_orders` has so far: its sums, `matches_`, `execs_`, and what it changes elsewhere.
pub record Matching : Type 0 where
  pub sum_lots : ℤ
  pub sum_cost : ℤ
  pub last_lots : ℤ
  pub last_ticks : ℤ
  pub matches : List Match
  pub execs : List Exec
  pub max_id : ℕ
  pub sesss : List Sess
  pub resp : Response

-- The position of an account in the market, made if there is none.
unfoldable pub touch_posn : Market → ℕ → List Sess → List Sess
touch_posn m accnt = with_sess accnt (λ s. (Sess.posn m.id m.instr m.settl_day s).1)

unfoldable pub new_match : Market → Order → Order → ℤ → ℕ → Matching → Match
new_match m taker maker lots created st =
    let maker_id = st.max_id + 1 in
    let taker_id = st.max_id + 2 in
    record {
      lots = lots;
      maker_order = maker.id;
      maker_trade =
          Exec.trade_last lots maker.ticks taker_id LiqInd.maker taker.accnt
            (new_exec maker maker_id created);
      maker_posn = maker.accnt;
      taker_trade =
          Exec.trade st.sum_lots st.sum_cost lots maker.ticks maker_id LiqInd.taker maker.accnt
            (new_exec taker taker_id created);
    }

-- The sums after a maker order has been matched for `lots`.
abbrev pub add_lots : ℤ → Order → Matching → Matching
add_lots lots maker st = record st {
  sum_lots = st.sum_lots +ℤ lots;
  sum_cost = st.sum_cost +ℤ cost lots maker.ticks;
  last_lots = lots;
  last_ticks = maker.ticks;
}

-- A self-match reports the maker's side of it too.
abbrev pub report : ℕ → Order → Match → Response → Response
report taker_accnt maker match resp = insert_exec match.taker_trade.id (
    if maker.accnt == taker_accnt
    then insert_exec match.maker_trade.id (Response.insert_order maker.id resp)
    else resp)

-- The body of the loop for one maker order.
unfoldable pub match_one : Market → ℕ → Order → ℕ → Order → Matching → Matching
match_one m taker_accnt taker now maker st =
    let lots = min_ℤ (taker.resd_lots -ℤ st.sum_lots) maker.resd_lots in
    let st' = add_lots lots maker st in
    let match = new_match m taker maker lots now st' in
    record st' {
      matches = st.matches ++ match ∷ [];
      execs = st.execs ++ match.maker_trade ∷ match.taker_trade ∷ [];
      max_id = st.max_id + 2;
      sesss = touch_posn m maker.accnt st.sesss;
      resp = report taker_accnt maker match st.resp;
    }

-- The loop over the side's orders.
unfoldable pub match_loop : Market → ℕ → Order → Direct → ℕ → List Order → Matching → Matching
match_loop m taker_accnt taker direct now [] st = st
match_loop m taker_accnt taker direct now (maker ∷ makers) st =
    let more =
      match_loop m taker_accnt taker direct now makers
        (match_one m taker_accnt taker now maker st) in
    if st.sum_lots ==ℤ taker.resd_lots
    then st
    else if ltb_ℤ (pos 0) (spread taker maker direct)
    then st
    else more

abbrev pub direct_of : Side → Direct
direct_of sd = if is_buy sd then Direct.paid else Direct.given

-- The side that a taker meets: the offers for a buyer, the bids for a seller.
abbrev pub maker_side : Side → Market → MarketSide
maker_side sd m = if is_buy sd then m.offer_side else m.bid_side

abbrev pub traded : Order → Matching → ℕ → Order
traded taker st now = elim st.matches [
  | [] ↦ taker
  | _ ∷ _ ↦ Order.trade st.sum_lots st.sum_cost st.last_lots st.last_ticks now taker
]

-- The matching, and the taker's order after it.
unfoldable pub match_orders :
    Market → ℕ → Order → ℕ → List Exec → List Sess → Response → Matching × Order
match_orders m taker_accnt taker now execs sesss resp =
    let st =
      match_loop m taker_accnt taker (direct_of taker.side) now (maker_side taker.side m).orders
        (record {
          sum_lots = pos 0;
          sum_cost = pos 0;
          last_lots = pos 0;
          last_ticks = pos 0;
          matches = [];
          execs = execs;
          max_id = m.max_id;
          sesss = sesss;
          resp = resp;
        }) in
    (st, traded taker st now)

abbrev pub is_nonempty {ℓ} : {A : Type ℓ} → List A → Bool
is_nonempty [] = false
is_nonempty (_ ∷ _) = true
