-- ===== src/Lob/Tests.antt =====
-- The engine on concrete inputs: a taker meets the small book.
use swirly.Base.{◌⊎◌, ◌↔◌, List, ◌+◌, ℕ, ◌≡◌, refl, inl, Option, none, some, [], ◌∷◌, map, arith}
use mathlib.Core.Path.{subst}
use swirly.Base.Int.{pos, ◌+ℤ◌, ◌-ℤ◌, ◌*ℤ◌}
use swirly.Fin.Types.{LiqInd, Side, cost}
use swirly.Fin.Order.{Order}
use swirly.Fin.Exec.{Exec}
use swirly.Fin.MsgQueue.{Msg}
use swirly.Fin.MsgQueue.Post.{posted}
use swirly.Fin.MarketSide.{find}
use swirly.Fin.Market.{find_order}
use swirly.Fin.Market.Valid.{IsValid}
use swirly.Fin.Tests.{book, book-IsValid, first_offer, second_offer, an_order}
use swirly.Lob.Sess.{Sess, key_of}
use swirly.Lob.Response.{Response}
use swirly.Lob.Engine.{
  Engine, Error, Outcome, Matching, throw, sess, match_orders, maker_side, min_ℤ, new_exec,
  new_match, find_sess, match_loop, match_one, spread,
}
use swirly.Lob.Engine.Fills.{fill_of, sum_lots, sum_cost, liquidity}
use swirly.Lob.Engine.Matched.{
  taker_fills, match_orders-fills, match_orders-sums, match_orders-lots,
}
use swirly.Lob.Create.{create_order, commit_match}
use swirly.Lob.Create.Taker.{Sound}
use swirly.Lob.Create.Book.{create_order-IsValid}
use swirly.Lob.Create.Refused.{Refuses, create_order-Refuses}
use swirly.Lob.Create.Queued.{line_of, order_lines, create_order-queue}
use swirly.Lob.Create.Sums.{HasSess, sum_sesss}
use swirly.Lob.Create.Balance.{commit_match-balance}
use swirly.Lob.Engine.Issued.{ids, count_up, match_orders-ids}
use swirly.Lob.Trade.{create_trade}
use swirly.Lob.Trade.Balance.{create_trade-balance}
use swirly.Lob.Change.{revise_order, cancel_order}
use swirly.Lob.Change.Book.{revise_order-IsValid, cancel_order-IsValid}

abbrev pub no_resp : Response
no_resp = record { market = none; orders = []; execs = []; posn = none }

-- The maker, who has the orders of the book, and the taker.
abbrev pub maker_sess : Sess
maker_sess = record {
  accnt = 7;
  max_execs = 8;
  orders = key_of first_offer ∷ key_of second_offer ∷ [];
  execs = [];
  trades = [];
  posns = [];
  ref_idx = [];
}

abbrev taker_sess : Sess
taker_sess = record {
  accnt = 8;
  max_execs = 8;
  orders = [];
  execs = [];
  trades = [];
  posns = [];
  ref_idx = [];
}

abbrev pub engine : Engine
engine = record {
  mq = record { capacity = 16; msgs = [] };
  bus_day = λ now. 0;
  max_execs = 8;
  market = book;
  sesss = maker_sess ∷ taker_sess ∷ [];
}

-- A buyer of 7 lots at 12 or below.
abbrev taker : Order
taker = record (an_order 4 Side.buy 12 none) { accnt = 8; lots = pos 7; resd_lots = pos 7 }

abbrev matched : Matching × Order
matched = match_orders book 8 taker 100 [] (maker_sess ∷ taker_sess ∷ []) no_resp

-- He takes the first offer and 2 lots of the second.
matched-run : (matched.0.sum_lots ≡ pos 7) × (matched.0.sum_cost ≡ pos 74)
unfolding match_orders match_loop spread ◌-ℤ◌ match_one ◌+ℤ◌ cost ◌*ℤ◌
matched-run = (refl, refl)

match_orders-fills_example : map fill_of matched.0.matches ≡ taker_fills book taker
match_orders-fills_example =
    match_orders-fills book 8 taker 100 [] (maker_sess ∷ taker_sess ∷ []) no_resp (omega arith)

match_orders-sums_example :
    (matched.0.sum_lots ≡ sum_lots (taker_fills book taker))
    × (matched.0.sum_cost ≡ sum_cost (taker_fills book taker))
match_orders-sums_example =
    match_orders-sums book 8 taker 100 [] (maker_sess ∷ taker_sess ∷ []) no_resp (omega arith)

match_orders-lots_example :
    matched.0.sum_lots
    ≡ min_ℤ (pos 7) (liquidity Side.buy (pos 12) (maker_side Side.buy book).orders)
match_orders-lots_example =
    match_orders-lots book 8 taker 100 [] (maker_sess ∷ taker_sess ∷ []) no_resp (omega arith)
      (inl refl) book-IsValid

create_order-IsValid_example :
    Sound (create_order engine 8 0 Side.buy (pos 7) (pos 12) (pos 1) 100 no_resp)
create_order-IsValid_example =
    create_order-IsValid engine 8 0 Side.buy (pos 7) (pos 12) (pos 1) 100 no_resp (inl refl)
      book-IsValid ((omega arith, (omega arith, tt)), tt) (omega arith)

-- An account with a session is refused an order of no lots.
create_order-Refuses_example :
    (((create_order engine 8 0 Side.buy (pos 0) (pos 12) (pos 1) 100 no_resp).error
        ≡ some Error.invalid_lots)
      ↔ Refuses engine (sess 8 8 engine.sesss).0 0 (pos 0) (pos 1) 100 Error.invalid_lots)
    × ((create_order engine 8 0 Side.buy (pos 0) (pos 12) (pos 1) 100 no_resp
          ≡ throw Error.invalid_lots (record engine { sesss = (sess 8 8 engine.sesss).1 }) no_resp)
        ↔ Refuses engine (sess 8 8 engine.sesss).0 0 (pos 0) (pos 1) 100 Error.invalid_lots)
create_order-Refuses_example =
    create_order-Refuses engine 8 0 Side.buy (pos 0) (pos 12) (pos 1) 100 no_resp Error.invalid_lots
      (λ e. absurd (cc e))

-- It is, for no reference is taken and the market has no settlement day.
no_lots :
    create_order engine 8 0 Side.buy (pos 0) (pos 12) (pos 1) 100 no_resp
    ≡ throw Error.invalid_lots (record engine { sesss = (sess 8 8 engine.sesss).1 }) no_resp
no_lots =
    (create_order-Refuses engine 8 0 Side.buy (pos 0) (pos 12) (pos 1) 100 no_resp
        Error.invalid_lots (λ e. absurd (cc e))).1.1
      ((λ d. d.0 refl), (λ d. d.0 refl), inl refl)

revise_order-IsValid_example : IsValid (revise_order engine 7 1 (pos 3) 100 no_resp).engine.market
revise_order-IsValid_example = revise_order-IsValid engine 7 1 (pos 3) 100 no_resp book-IsValid

cancel_order-IsValid_example : IsValid (cancel_order engine 7 1 100 no_resp).engine.market
cancel_order-IsValid_example = cancel_order-IsValid engine 7 1 100 no_resp book-IsValid

taker-has : HasSess 8 engine.sesss
unfolding find_sess
taker-has = refl

makers-have : (o : Order) → find_order book 1 ≡ some o → HasSess o.accnt engine.sesss
unfolding find_sess find_order find
makers-have o e = subst (λ x. HasSess (owner x) engine.sesss) e refl
  where
    owner : Option Order → ℕ
    owner none = 7
    owner (some x) = x.accnt

commit_match-balance_example :
    sum_sesss
      (commit_match 8 100
        (new_match book taker first_offer (pos 5) 100 matched.0)
        (book, engine.sesss)).1
    ≡ sum_sesss engine.sesss
commit_match-balance_example =
    commit_match-balance 8 100 book engine.sesss taker first_offer (pos 5) matched.0 refl taker-has
      makers-have

match_orders-ids_example :
    (n : ℕ) × ((match_orders book 8 taker 100
        (new_exec taker 3 100 ∷ [])
        engine.sesss
        no_resp).0.max_id
      ≡ 3 + n)
    × (ids (match_orders book 8 taker 100 (new_exec taker 3 100 ∷ []) engine.sesss no_resp).0.execs
        ≡ 3 ∷ count_up 3 n)
match_orders-ids_example = match_orders-ids book 8 taker 100 engine.sesss no_resp

abbrev bought : Outcome
bought = create_order engine 8 0 Side.buy (pos 7) (pos 12) (pos 1) 100 no_resp

create_order-queue_example :
    ((x : Error) × (bought.error ≡ some x) × (bought.engine.mq ≡ engine.mq))
    ⊎ ((execs : List Exec) × (bought.error ≡ none)
        × (bought.engine.mq ≡ posted engine.mq (map Msg.create_exec execs))
        × (map line_of execs ≡ order_lines book Side.buy (pos 7) (pos 12)))
create_order-queue_example =
    create_order-queue engine 8 0 Side.buy (pos 7) (pos 12) (pos 1) 100 no_resp (omega arith)

create_trade-balance_example :
    sum_sesss (create_trade engine 8 0 Side.buy (pos 4) (pos 10) LiqInd.none 7 100).engine.sesss
    ≡ sum_sesss engine.sesss
create_trade-balance_example =
    create_trade-balance engine 8 0 Side.buy (pos 4) (pos 10) LiqInd.none 7 100 (inl refl) refl
