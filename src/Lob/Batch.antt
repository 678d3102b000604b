-- ===== src/Lob/Batch.antt =====
-- swirly/lob/App.cpp: `revise_order`, `cancel_order` and `archive_trade` over several ids, and the
-- calls that make and update markets.
pub mod Action
pub mod Passed
pub mod Ends
pub mod Book
pub mod Cancelled
pub mod Gone
pub mod Archive
pub mod Tests
use swirly.Base.{
  ℕ, Bool, ◌||◌, Option, none, some, List, [], ◌∷◌, ◌++◌, map, ◌==◌, ltb, if◌then◌else◌,
}
use swirly.Base.Int.{ℤ}
use swirly.Fin.Order.{Order, done}
use swirly.Fin.Market.{Market, alloc_id}
use swirly.Fin.Market
use swirly.Fin.Exec.{Exec}
use swirly.Fin.Exec
use swirly.Fin.MsgQueue.{Posting, complete, thrown, create_execs, archive_trades}
use swirly.Lob.Sess.{Sess, find_trade, remove_trade}
use swirly.Lob.Response.{Response, set_market}
use swirly.Lob.Engine.{Engine, Error, new_exec, with_sess, sess}
use swirly.Lob.Change.{bad_lots, order_by_id, respond, after_revise, after_cancel}

-- How a call over several ids ended: with or without an error, or at a dereference of the end of a
-- set, of which the language says nothing.
pub data BatchOutcome : Type 0 where
  ended : Option Error → Engine → Response → BatchOutcome
  undefined : BatchOutcome

-- The variables of the first loop: the market, the response and the executions that it holds.
pub record Batch : Type 0 where
  pub market : Market
  pub resp : Response
  pub execs : List Exec

pub data Checked : Type 0 where
  passed : Batch → Checked
  refused : Error → Batch → Checked

-- The checks of an order that the session has: `none` lets it pass.
unfoldable pub revise_error : ℤ → Order → Option Error
revise_error lots o =
    if done o
    then some Error.too_late
    else if bad_lots lots o
    then some Error.invalid_lots
    else none

unfoldable pub cancel_error : Order → Option Error
cancel_error o = if done o then some Error.too_late else none

-- `auto exec = new_exec(order, market.alloc_id(), now);`, its change, and the response.
unfoldable pub add_exec : (Exec → Exec) → ℕ → Order → Batch → Batch
add_exec change now o b =
    let (id, m) = alloc_id b.market in
    let exec = change (new_exec o id now) in
    record { market = m; resp = respond m.id o exec b.resp; execs = b.execs ++ exec ∷ [] }

abbrev pub check_error : Option Error → Batch → Checked → Checked
check_error (some x) b rest = refused x b
check_error none b rest = rest

abbrev pub check_found : (Order → Option Error) → Batch → Option Order → (Order → Checked) → Checked
check_found error b none rest = refused Error.order_not_found b
check_found error b (some o) rest = check_error (error o) b (rest o)

-- The first loop. An allocation of an id changes no order, so that they are those of `e`.
unfoldable pub check_each :
    (Order → Option Error) → (Exec → Exec) → Engine → ℕ → ℕ → List ℕ → Batch → Checked
check_each error change e accnt now [] b = passed b
check_each error change e accnt now (id ∷ ids) b =
    check_found error b (order_by_id e accnt id)
      (λ o. check_each error change e accnt now ids (add_exec change now o b))

-- One round of the second loop, from the order at the iterator that `find` returns.
unfoldable pub commit_one :
    (Market → Order → Market × Order)
    → (Order → Exec → Sess → Sess)
    → Engine
    → ℕ
    → Exec
    → Order
    → Engine
commit_one act after e accnt exec o =
    let (m, o') = act e.market o in
    record e { market = m; sesss = with_sess accnt (after o' exec) e.sesss }

abbrev pub commit_found : Option Order → (Order → Option Engine) → Option Engine
commit_found none rest = none
commit_found (some o) rest = rest o

-- The second loop: `none` is the dereference of the end.
unfoldable pub commit_each :
    (Market → Order → Market × Order)
    → (Order → Exec → Sess → Sess)
    → ℕ
    → List Exec
    → Engine
    → Option Engine
commit_each act after accnt [] e = some e
commit_each act after accnt (exec ∷ execs) e =
    commit_found (order_by_id e accnt exec.order_id)
      (λ o. commit_each act after accnt execs (commit_one act after e accnt exec o))

abbrev pub committed : Response → Option Engine → BatchOutcome
committed resp none = undefined
committed resp (some e) = ended none e resp

-- From the post on.
abbrev pub post_batch :
    (Market → Order → Market × Order)
    → (Order → Exec → Sess → Sess)
    → Engine
    → ℕ
    → Batch
    → Posting
    → BatchOutcome
post_batch act after e accnt b (thrown mq) =
    ended (some Error.queue_full) (record e { market = b.market; mq = mq }) b.resp
post_batch act after e accnt b (complete mq) =
    committed b.resp (commit_each act after accnt b.execs (record e { market = b.market; mq = mq }))

abbrev pub finish_batch :
    (Market → Order → Market × Order)
    → (Order → Exec → Sess → Sess)
    → Engine
    → ℕ
    → Checked
    → BatchOutcome
finish_batch act after e accnt (refused x b) =
    ended (some x) (record e { market = b.market }) b.resp
finish_batch act after e accnt (passed b) =
    post_batch act after e accnt b (create_execs b.execs e.mq)

-- The response that a call is given may hold executions already: `held`.
abbrev pub start_batch : Engine → List Exec → Response → Batch
start_batch e held resp = record {
  market = e.market;
  resp = set_market e.market.id resp;
  execs = held;
}

unfoldable pub revise_orders : Engine → ℕ → List ℕ → ℤ → ℕ → List Exec → Response → BatchOutcome
revise_orders e accnt ids lots now held resp =
    finish_batch (λ m o. Market.revise_order m o lots now) after_revise e accnt
      (check_each (revise_error lots) (Exec.revise lots) e accnt now ids (start_batch e held resp))

unfoldable pub cancel_orders : Engine → ℕ → List ℕ → ℕ → List Exec → Response → BatchOutcome
cancel_orders e accnt ids now held resp =
    finish_batch (λ m o. Market.cancel_order m o now) after_cancel e accnt
      (check_each cancel_error Exec.cancel e accnt now ids (start_batch e held resp))

-- `// Validate.`
unfoldable pub has_trades : ℕ → List ℕ → List Exec → Bool
has_trades market_id [] trades = Bool.true
has_trades market_id (id ∷ ids) trades =
    let rest = has_trades market_id ids trades in
    elim (find_trade market_id id trades) [ none ↦ Bool.false | some _ ↦ rest ]

abbrev pub remove_found : Option Exec → (Exec → Option Sess) → Option Sess
remove_found none rest = none
remove_found (some t) rest = rest t

-- The commit of `archive_trade`: `none` is the dereference of the end.
unfoldable pub remove_trades : ℕ → List ℕ → Sess → Option Sess
remove_trades market_id [] s = some s
remove_trades market_id (id ∷ ids) s =
    remove_found (find_trade market_id id s.trades)
      (λ t. remove_trades market_id ids (remove_trade t s))

pub data ArchiveOutcome : Type 0 where
  ended : Option Error → Engine → ArchiveOutcome
  undefined : ArchiveOutcome

abbrev pub archive_committed : Engine → ℕ → Option Sess → ArchiveOutcome
archive_committed e accnt none = ArchiveOutcome.undefined
archive_committed e accnt (some s) =
    ArchiveOutcome.ended none (record e { sesss = with_sess accnt (λ _. s) e.sesss })

-- From the post on.
abbrev pub archive_posted : Engine → ℕ → ℕ → List ℕ → Sess → Posting → ArchiveOutcome
archive_posted e accnt market_id ids s (thrown mq) =
    ArchiveOutcome.ended (some Error.queue_full) (record e { mq = mq })
archive_posted e accnt market_id ids s (complete mq) =
    archive_committed (record e { mq = mq }) accnt (remove_trades market_id ids s)

-- `archive_trade(Sess&, Id64, ArrayView<Id64>, Time)`
unfoldable pub archive_trades_of : Engine → ℕ → ℕ → List ℕ → ℕ → ArchiveOutcome
archive_trades_of e accnt market_id ids now =
    let (s, sesss) = sess e.max_execs accnt e.sesss in
    let e' = record e { sesss = sesss } in
    if has_trades market_id ids s.trades
    then archive_posted e' accnt market_id ids s (archive_trades market_id ids now e.mq)
    else ArchiveOutcome.ended (some Error.not_found) e'
