-- ===== src/Lob/Create.antt =====
-- swirly/lob/App.cpp: `create_order` and the commit of its matches.
pub mod Commit
pub mod Uncrossed
pub mod Sums
pub mod Balance
pub mod Rest
pub mod Taker
pub mod Finish
pub mod Book
pub mod Refused
pub mod Queued
use swirly.Base.{
  ℕ, Bool, true, false, not, ◌&&◌, ◌||◌, Option, none, some, List, [], ◌∷◌, ◌==◌, if◌then◌else◌,
  ltb,
}
use swirly.Base.Int.{ℤ, pos, ltb_ℤ, ◌==ℤ◌}
use swirly.Fin.Types.{Side}
use swirly.Fin.Order.{Order, done}
use swirly.Fin.Order
use swirly.Fin.Market.{Market, alloc_id, find_order}
use swirly.Fin.Market
use swirly.Fin.Exec.{Exec}
use swirly.Fin.Exec
use swirly.Fin.Posn.{Posn, net_lots, add_trade}
use swirly.Fin.MsgQueue.{complete, thrown, create_execs}
use swirly.Lob.Sess.{Sess, exists, insert_trade, push_exec_front, write_posn}
use swirly.Lob.Sess
use swirly.Lob.Response.{Response, set_market, set_posn, insert_exec}
use swirly.Lob.Response
use swirly.Lob.Engine.{
  Engine, Error, Outcome, ok, throw, Match, Matching, new_exec, match_orders, touch_posn, with_sess,
  find_sess, sess, is_nonempty,
}

-- One party's part of a match: its position before the trade goes into the trade, the trade into
-- the position and the session.
unfoldable pub book_trade : Market → Exec → Sess → Sess
book_trade m trade s =
    let (p, s') = Sess.posn m.id m.instr m.settl_day s in
    let t = Exec.posn (net_lots p) p.net_cost trade in
    insert_trade t (
      push_exec_front t (record s' {
        posns = write_posn m.id (add_trade t.side t.last_lots t.last_ticks) s'.posns;
      }))

abbrev pub drop_done : Order → Sess → Sess
drop_done o s = if done o then Sess.remove_order o s else s

-- The body of the loop of `commit_matches`, once the maker's order is at hand.
abbrev pub commit_taken : ℕ → Match → List Sess → Market × Order → Market × List Sess
commit_taken taker_accnt match sesss (m, maker) = (
  m,
  with_sess taker_accnt (book_trade m match.taker_trade)
      (with_sess maker.accnt (λ s. drop_done maker (book_trade m match.maker_trade s)) sesss),
)

-- The body of the loop. The maker's order rests in the market, where its object is found.
unfoldable pub commit_match : ℕ → ℕ → Match → Market × List Sess → Market × List Sess
commit_match taker_accnt now match (m, sesss) = elim (find_order m match.maker_order) [
  | none ↦ (m, sesss)
  | some maker ↦ commit_taken taker_accnt match sesss (Market.take_order m maker match.lots now)
]

unfoldable pub commit_matches : ℕ → ℕ → List Match → Market × List Sess → Market × List Sess
commit_matches taker_accnt now [] st = st
commit_matches taker_accnt now (match ∷ matches) st =
    commit_matches taker_accnt now matches (commit_match taker_accnt now match st)

-- The checks that come before anything changes.
unfoldable pub check_order : Engine → Sess → ℕ → ℤ → ℤ → ℕ → Option Error
check_order e s ref lots min_lots now =
    let m = e.market in
    if not (ref == 0) && exists ref s
    then some Error.ref_already_exists
    else if not (m.settl_day == 0) && ltb m.settl_day (e.bus_day now)
    then some Error.market_closed
    else if lots ==ℤ pos 0 || ltb_ℤ lots min_lots
    then some Error.invalid_lots
    else none

-- The order placed in the market, unless it is done.
abbrev pub rest_order : Order → Market → Market
rest_order o m = if done o then m else Market.insert_order m o

-- The undo of `rest_order`, of the order's object as it stands in the market.
abbrev pub unrest_order : Order → Market → Market
unrest_order o m =
    if done o
    then m
    else elim (find_order m o.id) [ none ↦ m | some o' ↦ (Market.remove_order m o').0 ]

abbrev pub insert_open : Order → Sess → Sess
insert_open o s = if done o then s else Sess.insert_order o s

-- The commit phase.
unfoldable pub commit_order : Engine → ℕ → Order → Exec → Matching → Response → ℕ → Outcome
commit_order e accnt order exec st resp now =
    let sesss = with_sess accnt (λ s. push_exec_front exec (insert_open order s)) e.sesss in
    let (m, sesss') = commit_matches accnt now st.matches (e.market, sesss) in
    ok (record e { market = m; sesss = sesss' }) resp

-- From the match on: the order is placed, its transaction queued and committed.
unfoldable pub finish_order : Engine → ℕ → Exec → ℕ → Matching × Order → Outcome
finish_order e accnt exec now (st, order) =
    let m = record (e.market) { max_id = st.max_id } in
    let have_matches = is_nonempty st.matches in
    let sesss = if have_matches then touch_posn m accnt st.sesss else st.sesss in
    let resp = set_market m.id st.resp in
    let resp' = if have_matches then set_posn accnt m.id resp else resp in
    let placed = record e { market = rest_order order m; sesss = sesss } in
    elim (create_execs st.execs e.mq) [
      | thrown mq ↦
          throw Error.queue_full
            (record placed { market = unrest_order order placed.market; mq = mq }) resp'
      | complete mq ↦ commit_order (record placed { mq = mq }) accnt order exec st resp' now
    ]

-- The new order and its execution, and the match.
unfoldable pub start_order : Engine → ℕ → ℕ → Side → ℤ → ℤ → ℤ → ℕ → Response → Outcome
start_order e accnt ref side lots ticks min_lots now resp =
    let (id, m) = alloc_id e.market in
    let order = Order.make accnt m.id m.instr m.settl_day id ref side lots ticks min_lots now in
    let exec = new_exec order id now in
    let resp' = insert_exec exec.id (Response.insert_order order.id resp) in
    let e' = record e { market = m } in
    finish_order e' accnt exec now (match_orders m accnt order now (exec ∷ []) e.sesss resp')

unfoldable pub create_order : Engine → ℕ → ℕ → Side → ℤ → ℤ → ℤ → ℕ → Response → Outcome
create_order e accnt ref side lots ticks min_lots now resp =
    let (s, sesss) = sess e.max_execs accnt e.sesss in
    let e' = record e { sesss = sesss } in
    elim (check_order e' s ref lots min_lots now) [
      | some x ↦ throw x e' resp
      | none ↦ start_order e' accnt ref side lots ticks min_lots now resp
    ]
