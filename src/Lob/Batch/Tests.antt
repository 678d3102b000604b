-- ===== src/Lob/Batch/Tests.antt =====
-- The calls over several ids, and those on markets, on concrete inputs.
use swirly.Base.{ℕ, ◌≡◌, refl, ◌⊎◌, inl, true, none, some, List, [], ◌∷◌, All, arith}
use swirly.Base.Int.{pos}
use swirly.Fin.Exec.{Exec}
use swirly.Fin.MarketSide.{find, remove_at, write, remove}
use swirly.Fin.MarketSide
use swirly.Fin.Order.{done, set_level}
use swirly.Fin.Order
use swirly.Fin.Exec
use swirly.Fin.Market.{find_order, alloc_id, with_side, side}
use swirly.Fin.Market
use swirly.Fin.MsgQueue.{
  MsgQueue, Posting, complete, thrown, create_execs, create_each, do_create_exec, archive_trades,
  reserve, steps, archive_steps, do_archive_trade, post,
}
use swirly.Fin.MarketId.{to_market_id}
use swirly.Fin.Tests.{book, book-IsValid}
use swirly.Fin.Posn.Tests.{a_trade}
use swirly.Lob.Sess.{find_trade, find_key, remove_from, push_exec_front, remove_order, remove_key}
use swirly.Lob.Response.{Response}
use swirly.Lob.Change.{order_by_id, deref, bad_lots}
use swirly.Lob.Engine.{Engine, Error, sess, find_sess, new_exec, with_sess}
use swirly.Lob.Tests.{engine, maker_sess, no_resp}
use swirly.Lob.Batch.{
  BatchOutcome, ArchiveOutcome, cancel_orders, revise_orders, has_trades, archive_trades_of,
  check_each, add_exec, commit_each, commit_one, cancel_error, revise_error,
}
use swirly.Lob.Batch.Passed.{Absent, Distinct, Grown}
use swirly.Lob.Batch.Book.{
  EndsValid, cancel_orders-EndsValid, revise_orders-EndsValid, revise_orders-all_or_none,
}
use swirly.Lob.Batch.Gone.{cancel_orders-exactly}
use swirly.Lob.Batch.Archive.{Ends, archive_trades_of-Ends, archive_trades_of-undefined}
use swirly.Lob.Markets.{Markets, create_market, id64}
use swirly.Lob.Markets.Made.{IsMade, create_market-IsMade}

abbrev two_ids : List ℕ
two_ids = 1 ∷ 2 ∷ []

two_ids-Distinct : Distinct two_ids
two_ids-Distinct = (((λ e. absurd (omega (arith, e))), tt), (tt, tt))

cancel_orders-EndsValid_example : EndsValid (cancel_orders engine 7 two_ids 100 [] no_resp)
cancel_orders-EndsValid_example =
    cancel_orders-EndsValid engine 7 two_ids 100 no_resp book-IsValid two_ids-Distinct

revise_orders-EndsValid_example : EndsValid (revise_orders engine 7 two_ids (pos 3) 100 [] no_resp)
revise_orders-EndsValid_example =
    revise_orders-EndsValid engine 7 two_ids (pos 3) 100 no_resp book-IsValid two_ids-Distinct

abbrev engine_of : BatchOutcome → Engine
engine_of (BatchOutcome.ended x e r) = e
engine_of BatchOutcome.undefined = engine

abbrev resp_of : BatchOutcome → Response
resp_of (BatchOutcome.ended x e r) = r
resp_of BatchOutcome.undefined = no_resp

abbrev cancelled : BatchOutcome
cancelled = cancel_orders engine 7 two_ids 100 [] no_resp

cancelled-ended : cancelled ≡ BatchOutcome.ended none (engine_of cancelled) (resp_of cancelled)
unfolding cancel_orders check_each add_exec commit_each commit_one cancel_error order_by_id
    find_sess deref find_key sess find_order find done create_execs reserve create_each
    do_create_exec post alloc_id new_exec with_sess Exec.cancel push_exec_front remove_order
    remove_key Market.cancel_order MarketSide.cancel_order Order.cancel remove_at set_level
    with_side write remove side
cancelled-ended = refl

cancel_orders-exactly_example :
    All (λ id. find_order (engine_of cancelled).market id ≡ none) two_ids
    × ((id : ℕ)
        → Absent id two_ids
        → find_order (engine_of cancelled).market id ≡ find_order engine.market id)
cancel_orders-exactly_example =
    cancel_orders-exactly engine 7 two_ids 100 no_resp (engine_of cancelled) (resp_of cancelled)
      book-IsValid cancelled-ended

-- The second of these is not there.
abbrev one_missing : List ℕ
one_missing = 1 ∷ 9 ∷ []

abbrev revised : BatchOutcome
revised = revise_orders engine 7 one_missing (pos 3) 100 [] no_resp

revised-refused :
    revised ≡ BatchOutcome.ended (some Error.order_not_found) (engine_of revised) (resp_of revised)
unfolding revise_orders check_each add_exec revise_error order_by_id deref find_sess find_key sess
    find_order find done bad_lots
revised-refused = refl

revise_orders-all_or_none_example :
    ((engine_of revised).sesss ≡ engine.sesss)
    × ((engine_of revised).mq ≡ engine.mq)
    × Grown engine (engine_of revised).market
revise_orders-all_or_none_example =
    revise_orders-all_or_none engine 7 one_missing (pos 3) 100 [] no_resp Error.order_not_found
      (engine_of revised) (resp_of revised) book-IsValid revised-refused

-- An account with one trade, whose id is 9.
abbrev traded : Engine
traded = record engine { sesss = record maker_sess { trades = a_trade ∷ [] } ∷ [] }

archive_trades_of-Ends_example : Ends (archive_trades_of traded 7 1 two_ids 100)
archive_trades_of-Ends_example = archive_trades_of-Ends traded 7 1 two_ids 100 two_ids-Distinct

abbrev twice : List ℕ
twice = 9 ∷ 9 ∷ []

twice-has : has_trades 1 twice (sess 8 7 traded.sesss).0.trades ≡ true
unfolding has_trades sess find_sess find_trade
twice-has = refl

once : find_trade 1 9 (remove_from 1 9 (sess 8 7 traded.sesss).0.trades) ≡ none
unfolding sess find_sess find_trade
once = refl

abbrev queue_of : Posting → MsgQueue
queue_of (thrown q) = q
queue_of (complete q) = q

abbrev with_step : MsgQueue
with_step = queue_of (archive_trades 1 twice 100 traded.mq)

twice-fits : archive_trades 1 twice 100 traded.mq ≡ complete with_step
unfolding archive_trades reserve steps archive_steps do_archive_trade post
twice-fits = refl

archive_trades_of-undefined_example :
    archive_trades_of traded 7 1 twice 100 ≡ ArchiveOutcome.undefined
archive_trades_of-undefined_example =
    archive_trades_of-undefined traded 7 1 9 (9 ∷ []) 100 with_step (inl refl) twice-has once
      twice-fits

abbrev no_markets : Markets
no_markets = record { mq = engine.mq; bus_day = λ now. 2450000; markets = book ∷ [] }

create_market-IsMade_example :
    ((x : Error) × (create_market no_markets 1 2 2457000 0 100 ≡ (some x, no_markets)))
    ⊎ IsMade no_markets
        (id64 (to_market_id 1 2457000))
        (Market.make (id64 (to_market_id 1 2457000)) 2 2457000 0)
        (create_market no_markets 1 2 2457000 0 100)
create_market-IsMade_example = create_market-IsMade no_markets 1 2 2457000 0 100 tt
