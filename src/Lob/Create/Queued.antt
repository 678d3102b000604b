-- ===== src/Lob/Create/Queued.antt =====
-- What `create_order` posts to the queue: the new order's execution and those of its fills.
use swirly.Base.{
  ℕ, suc, ◌⊎◌, ◌&&◌, ◌≡◌, refl, sym, ap, ◌∙◌, inl, inr, none, some, List, [], ◌∷◌, ◌++◌, map,
  append_nil, append_assoc, Bool-cases, Option-cases,
}
use mathlib.Core.Path.{subst}
use swirly.Base.Int.{ℤ, pos, ltb_ℤ, ◌≤ℤ◌, sub-zero}
use swirly.Fin.Types.{Side}
use swirly.Fin.Order.{Order}
use swirly.Fin.Order
use swirly.Fin.Exec.{Exec}
use swirly.Fin.Exec
use swirly.Fin.Market.{Market, alloc_id}
use swirly.Fin.MsgQueue.{Msg, MsgQueue, create_execs}
use swirly.Fin.MsgQueue.Post.{posted, Posting-cases, create_execs-complete, create_execs-thrown}
use swirly.Lob.Sess.{Sess}
use swirly.Lob.Response.{Response}
use swirly.Lob.Engine.{
  Engine, Error, Outcome, Matching, match_one, match_loop, match_orders, new_match, new_exec,
  maker_side, sess,
}
use swirly.Lob.Engine.Fills.{
  Fill, fills, crosses, need, loop, step, loop-stop, loop-go, step-le, next_fills, first_fill,
  next_fills-stop, next_fills-go,
}
use swirly.Lob.Engine.Matched.{taker_fills}
use swirly.Lob.Create.{create_order, start_order, finish_order, commit_order, check_order}
use swirly.Lob.Create.Book.{create_order-throws, create_order-passed}

-- What a message says of a trade: the order, its last lots and price, and the position that the
-- trade met.
pub record Line : Type 0 where
  pub order_id : ℕ
  pub last_lots : ℤ
  pub last_ticks : ℤ
  pub posn_lots : ℤ
  pub posn_cost : ℤ

abbrev pub line_of : Exec → Line
line_of x = record {
  order_id = x.order_id;
  last_lots = x.last_lots;
  last_ticks = x.last_ticks;
  posn_lots = x.posn_lots;
  posn_cost = x.posn_cost;
}

-- No position.
abbrev pub flat_line : ℕ → ℤ → ℤ → Line
flat_line order_id lots ticks = record {
  order_id = order_id;
  last_lots = lots;
  last_ticks = ticks;
  posn_lots = pos 0;
  posn_cost = pos 0;
}

-- Of each fill the maker's trade and then the taker's.
abbrev pub fill_lines : ℕ → List Fill → List Line
fill_lines taker [] = []
fill_lines taker (f ∷ fs) =
    flat_line f.maker_order f.lots f.ticks ∷ flat_line taker f.lots f.ticks ∷ fill_lines taker fs

map-append : (xs ys : List Exec) → map line_of (xs ++ ys) ≡ map line_of xs ++ map line_of ys
map-append [] ys = refl
map-append (x ∷ xs) ys = ap (λ t. line_of x ∷ t) (map-append xs ys)

module _ (m : Market) (accnt : ℕ) (taker : Order) (now : ℕ) where
  step-lines :
      (o : Order) (st : Matching)
      → map line_of (step m accnt taker now o st).execs
        ≡ map line_of st.execs ++ fill_lines taker.id (first_fill m accnt taker now o st ∷ [])
  unfolding match_one new_match new_exec Exec.trade_last Exec.trade
  step-lines o st = map-append st.execs _

  loop-lines :
      (os : List Order) (st : Matching)
      → st.sum_lots ≤ℤ taker.resd_lots
      → map line_of (loop m accnt taker now os st).execs
        ≡ map line_of st.execs ++ fill_lines taker.id (next_fills m accnt taker now os st)
  unfolding match_loop
  loop-lines [] st le = sym (append_nil _)
  loop-lines (o ∷ os) st le =
      elim (Bool-cases (ltb_ℤ (pos 0) (need taker st) && crosses taker.side taker.ticks o.ticks)) [
        | inl h ↦
            rw
              (
                loop-go m accnt taker now o os st h,
                next_fills-go m accnt taker now o os st h,
                loop-lines os (step m accnt taker now o st) (step-le m accnt taker now o st le),
                step-lines o st,
              )
              (append_assoc (map line_of st.execs) _ _)
        | inr h ↦
            rw
              (
                loop-stop m accnt taker now o os st le h,
                next_fills-stop m accnt taker now o os st h,
              )
              (sym (append_nil _))
      ]

  match_orders-lines :
      (execs : List Exec) (sesss : List Sess) (resp : Response)
      → pos 0 ≤ℤ taker.resd_lots
      → map line_of (match_orders m accnt taker now execs sesss resp).0.execs
        ≡ map line_of execs ++ fill_lines taker.id (taker_fills m taker)
  unfolding match_orders
  match_orders-lines execs sesss resp h =
      loop-lines (maker_side taker.side m).orders _ h
      ∙ ap
          (λ n.
            map line_of execs
            ++ fill_lines taker.id
                (fills taker.side taker.ticks n (maker_side taker.side m).orders))
          (sub-zero taker.resd_lots)

-- How a call that adds to a queue ended: it threw and the queue is as it was, or it posted the
-- executions that these lines are of.
abbrev Posts : MsgQueue → List Line → Outcome → Type 0
Posts q lines out =
    ((x : Error) × (out.error ≡ some x) × (out.engine.mq ≡ q))
    ⊎ ((execs : List Exec) × (out.error ≡ none)
        × (out.engine.mq ≡ posted q (map Msg.create_exec execs))
        × (map line_of execs ≡ lines))

finish_order-Posts :
    (e : Engine) (accnt : ℕ) (exec : Exec) (now : ℕ) (r : Matching × Order)
    → Posts e.mq (map line_of r.0.execs) (finish_order e accnt exec now r)
unfolding finish_order commit_order
finish_order-Posts e accnt exec now r = elim (Posting-cases (create_execs r.0.execs e.mq)) [
  | inl (mq, full) ↦
      rw (full, finish_order)
        (inl (Error.queue_full, refl, create_execs-thrown r.0.execs e.mq mq full))
  | inr (mq, done) ↦
      rw (done, finish_order)
        (inr (r.0.execs, refl, create_execs-complete r.0.execs e.mq mq done, refl))
]

-- The lines of a new order in a market: its own, of no trade, and those of its fills.
abbrev pub order_lines : Market → Side → ℤ → ℤ → List Line
order_lines m sd lots ticks =
    flat_line (suc m.max_id) (pos 0) (pos 0)
    ∷ fill_lines (suc m.max_id) (fills sd ticks lots (maker_side sd m).orders)

start_order-Posts :
    (e : Engine) (accnt ref : ℕ) (sd : Side) (lots ticks min_lots : ℤ) (now : ℕ) (resp : Response)
    → pos 0 ≤ℤ lots
    → Posts e.mq
        (order_lines e.market sd lots ticks)
        (start_order e accnt ref sd lots ticks min_lots now resp)
unfolding start_order alloc_id Order.make new_exec
start_order-Posts e accnt ref sd lots ticks min_lots now resp h =
    subst (λ ls. Posts e.mq ls (start_order e accnt ref sd lots ticks min_lots now resp))
      (match_orders-lines _ accnt _ now _ e.sesss _ h) (finish_order-Posts _ accnt _ now _)

-- For an order whose lots are not negative, create_order either throws and leaves the queue as it
-- was, or returns and has added to the queue, in order, a message for the new order and then for
-- each fill one for the maker and one for the taker: they have the order, the lots and the price
-- of the fill, and all of them the position lots 0 and the position cost 0. The fills are those
-- that the other side of the market gives an order of this side, price and lots.
pub create_order-queue :
    (e : Engine) (accnt ref : ℕ) (sd : Side) (lots ticks min_lots : ℤ) (now : ℕ) (resp : Response)
    → pos 0 ≤ℤ lots
    → let out = create_order e accnt ref sd lots ticks min_lots now resp in
      ((x : Error) × (out.error ≡ some x) × (out.engine.mq ≡ e.mq))
      ⊎ ((execs : List Exec) × (out.error ≡ none)
          × (out.engine.mq ≡ posted e.mq (map Msg.create_exec execs))
          × (map line_of execs ≡ order_lines e.market sd lots ticks))
create_order-queue e accnt ref sd lots ticks min_lots now resp h =
    let (s, sesss) = sess e.max_execs accnt e.sesss in
    let e' = record e { sesss = sesss } in
    elim (Option-cases (check_order e' s ref lots min_lots now)) [
      | inl passed ↦
          subst (Posts e.mq (order_lines e.market sd lots ticks))
            (sym (create_order-passed e accnt ref sd lots ticks min_lots now resp passed))
            (start_order-Posts e' accnt ref sd lots ticks min_lots now resp h)
      | inr (x, refused) ↦
          subst (Posts e.mq (order_lines e.market sd lots ticks))
            (sym (create_order-throws e accnt ref sd lots ticks min_lots now resp x refused))
            (inl (x, refl, refl))
    ]
