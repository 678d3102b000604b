-- ===== src/Lob/Trade.antt =====
-- swirly/lob/App.cpp: `create_trade` and `archive_trade`, of one trade or of several.
pub mod Booked
pub mod Balance
use swirly.Base.{ℕ, Bool, true, false, Option, none, some, List, [], ◌∷◌, ◌==◌, if◌then◌else◌}
use swirly.Base.Int.{ℤ, pos}
use swirly.Fin.Types.{Side, State, LiqInd, cost}
use swirly.Fin.Market.{Market, alloc_id}
use swirly.Fin.Exec.{Exec}
use swirly.Fin.Exec
use swirly.Fin.Posn.{Posn, net_lots, add_trade}
use swirly.Fin.MsgQueue
use swirly.Fin.MsgQueue.{
  MsgQueue, Posting, complete, thrown, after_post, do_create_exec, create_execs,
}
use swirly.Lob.Sess.{Sess, insert_trade, push_exec_front, write_posn, find_trade, remove_trade}
use swirly.Lob.Sess
use swirly.Lob.Engine.{Engine, Error, with_sess, sess}

-- The factory method for manual trades, with the market's next id.
unfoldable pub new_manual : ℕ → Market → ℕ → Side → ℤ → ℤ → ℤ → ℤ → LiqInd → ℕ → ℕ → Exec × Market
new_manual accnt market ref side lots ticks posn_lots posn_cost liq_ind cpty created =
    let (id, m) = alloc_id market in
    (
      record {
        accnt = accnt;
        market_id = m.id;
        instr = m.instr;
        settl_day = m.settl_day;
        id = id;
        ref = ref;
        side = side;
        lots = lots;
        created = created;
        order_id = 0;
        state = State.trade;
        ticks = ticks;
        resd_lots = pos 0;
        exec_lots = lots;
        exec_cost = cost lots ticks;
        last_lots = lots;
        last_ticks = ticks;
        min_lots = pos 1;
        match_id = 0;
        posn_lots = posn_lots;
        posn_cost = posn_cost;
        liq_ind = liq_ind;
        cpty = cpty;
      },
      m,
    )

-- The session of an account, with its position in the market, both made if there are none.
unfoldable pub open_posn : ℕ → Market → ℕ → List Sess → Posn × List Sess
open_posn max_execs m accnt ss =
    let (s, ss') = sess max_execs accnt ss in
    let (p, s') = Sess.posn m.id m.instr m.settl_day s in (p, with_sess accnt (λ _. s') ss')

-- The commit of one trade to its session.
unfoldable pub commit_trade : Market → Exec → Sess → Sess
commit_trade m t s =
    let s' = insert_trade t (push_exec_front t s) in
    record s' { posns = write_posn m.id (add_trade t.side t.last_lots t.last_ticks) s'.posns }

pub record TradeOutcome : Type 0 where
  pub error : Option Error
  pub engine : Engine
  pub trades : List Exec

abbrev pub finish_trades : Engine → List Exec → Posting → List Sess → TradeOutcome
finish_trades e trades (thrown mq) sesss = record {
  error = some Error.queue_full;
  engine = record e { mq = mq };
  trades = [];
}
finish_trades e trades (complete mq) sesss = record {
  error = none;
  engine = record e { mq = mq; sesss = sesss };
  trades = trades;
}

-- A trade with no counter-party.
unfoldable pub single_trade : Engine → ℕ → Exec → TradeOutcome
single_trade e accnt trade =
    finish_trades e (trade ∷ []) (after_post e.mq (do_create_exec trade e.mq) complete)
      (with_sess accnt (commit_trade e.market trade) e.sesss)

-- A back-to-back trade.
unfoldable pub paired_trade : Engine → ℕ → ℕ → Exec → TradeOutcome
paired_trade e accnt cpty trade =
    let (p, sesss) = open_posn e.max_execs e.market cpty e.sesss in
    let (id, m) = alloc_id e.market in
    let cpty_trade = Exec.opposite trade id in
    finish_trades (record e { market = m; sesss = sesss }) (trade ∷ cpty_trade ∷ [])
      (create_execs (trade ∷ cpty_trade ∷ []) e.mq)
      (with_sess accnt (commit_trade m trade) (with_sess cpty (commit_trade m cpty_trade) sesss))

unfoldable pub create_trade : Engine → ℕ → ℕ → Side → ℤ → ℤ → LiqInd → ℕ → ℕ → TradeOutcome
create_trade e accnt ref side lots ticks liq_ind cpty created =
    let (p, sesss) = open_posn e.max_execs e.market accnt e.sesss in
    let (trade, m) =
      new_manual accnt e.market ref side lots ticks (net_lots p) p.net_cost liq_ind cpty created in
    let e' = record e { market = m; sesss = sesss } in
    if cpty == 0 then single_trade e' accnt trade else paired_trade e' accnt cpty trade

abbrev pub finish_archive : Engine → ℕ → (Sess → Sess) → Option MsgQueue → Option Error × Engine
finish_archive e accnt f none = (some Error.queue_full, e)
finish_archive e accnt f (some mq) = (none, record e { mq = mq; sesss = with_sess accnt f e.sesss })

unfoldable pub do_archive_trade : Engine → ℕ → Exec → ℕ → Option Error × Engine
do_archive_trade e accnt trade now =
    finish_archive e accnt (remove_trade trade)
      (MsgQueue.do_archive_trade trade.market_id (trade.id ∷ []) now e.mq)

abbrev is_trade : State → Bool
is_trade State.trade = true
is_trade _ = false

-- `archive_trade(Sess&, const Exec&, Time)`
unfoldable pub archive_exec : Engine → ℕ → Exec → ℕ → Option Error × Engine
archive_exec e accnt trade now =
    if is_trade trade.state then do_archive_trade e accnt trade now else (some Error.invalid, e)

-- `archive_trade(Sess&, Id64, Id64, Time)`
unfoldable pub archive_trade : Engine → ℕ → ℕ → ℕ → ℕ → Option Error × Engine
archive_trade e accnt market_id id now =
    elim (find_trade market_id id (sess e.max_execs accnt e.sesss).0.trades) [
      | none ↦ (some Error.not_found, e)
      | some trade ↦ do_archive_trade e accnt trade now
    ]
