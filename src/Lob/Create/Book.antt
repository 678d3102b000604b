-- ===== src/Lob/Create/Book.antt =====
-- What `create_order` does to the market, on every branch.
use swirly.Base.{ℕ, suc, ◌≡◌, refl, sym, ap, inl, inr, none, some, arith, Option-cases}
use mathlib.Core.Path.{subst}
use swirly.Base.Int.{ℤ, pos, ◌≤ℤ◌, ◌<ℤ◌}
use swirly.Fin.Types.{Side}
use swirly.Fin.Order.{Order, done}
use swirly.Fin.Order
use swirly.Fin.Market.{alloc_id}
use swirly.Fin.Market.Valid.{IsValid}
use swirly.Fin.Market.Book.{more_ids}
use swirly.Fin.Market.Take.{IsTradable}
use swirly.Lob.Sess.{Sess}
use swirly.Lob.Response.{Response}
use swirly.Lob.Engine.{sess, Engine, Error, throw}
use swirly.Lob.Create.{create_order, start_order, check_order}
use swirly.Lob.Create.Uncrossed.{Uncrossed}
use swirly.Lob.Create.Rest.{new_id}
use swirly.Lob.Create.Taker.{Sound}
use swirly.Lob.Create.Finish.{finish_order-Sound}

start_order-Sound :
    (e : Engine) (accnt ref : ℕ) (sd : Side) (lots ticks min_lots : ℤ) (now : ℕ) (resp : Response)
    → IsTradable sd
    → IsValid e.market
    → Uncrossed e.market
    → pos 0 <ℤ lots
    → Sound (start_order e accnt ref sd lots ticks min_lots now resp)
unfolding start_order alloc_id Order.make
start_order-Sound e accnt ref sd lots ticks min_lots now resp trade v u h =
    finish_order-Sound _ accnt _ now _ e.sesss _
      (record {
        valid = more_ids e.market (suc e.market.max_id) (omega arith) v;
        uncrossed = u;
        tradable = trade;
        fresh_bid = new_id e.market.max_id e.market.bid_side.orders v.bid_ids;
        fresh_offer = new_id e.market.max_id e.market.offer_side.orders v.offer_ids;
        allocated = omega arith;
        open_lots = h;
        unfilled = refl;
        whole = refl;
      })
      e _

check_order-lots :
    (e : Engine) (s : Sess) (ref : ℕ) (lots min_lots : ℤ) (now : ℕ)
    → check_order e s ref lots min_lots now ≡ none
    → pos 0 ≤ℤ min_lots
    → pos 0 <ℤ lots
unfolding check_order
check_order-lots e s ref lots min_lots now c h = ground arith

-- The branch of a check that fails.
pub create_order-throws :
    (e : Engine) (accnt ref : ℕ) (sd : Side) (lots ticks min_lots : ℤ) (now : ℕ) (resp : Response)
    (x : Error)
    → let (s, sesss) = sess e.max_execs accnt e.sesss in
      check_order (record e { sesss = sesss }) s ref lots min_lots now ≡ some x
      → create_order e accnt ref sd lots ticks min_lots now resp
        ≡ throw x (record e { sesss = (sess e.max_execs accnt e.sesss).1 }) resp
unfolding create_order
create_order-throws e accnt ref sd lots ticks min_lots now resp x h = rw (h, create_order) refl

pub create_order-passed :
    (e : Engine) (accnt ref : ℕ) (sd : Side) (lots ticks min_lots : ℤ) (now : ℕ) (resp : Response)
    → let (s, sesss) = sess e.max_execs accnt e.sesss in
      check_order (record e { sesss = sesss }) s ref lots min_lots now ≡ none
      → create_order e accnt ref sd lots ticks min_lots now resp
        ≡ start_order
            (record e { sesss = (sess e.max_execs accnt e.sesss).1 })
            accnt
            ref
            sd
            lots
            ticks
            min_lots
            now
            resp
unfolding create_order
create_order-passed e accnt ref sd lots ticks min_lots now resp h =
    let e' = record e { sesss = (sess e.max_execs accnt e.sesss).1 } in
    ap
      (λ c. elim c [
        | some x ↦ throw x e' resp
        | none ↦ start_order e' accnt ref sd lots ticks min_lots now resp
      ])
      h

-- If the market is valid and all its bids are below all its offers, the side is buy or sell and
-- the minimum lots are not negative, then the market is valid with its bids below its offers
-- after create_order, whether the call refuses the order, undoes it because the queue is full, or
-- matches it and commits.
pub create_order-IsValid :
    (e : Engine) (accnt ref : ℕ) (sd : Side) (lots ticks min_lots : ℤ) (now : ℕ) (resp : Response)
    → IsTradable sd
    → IsValid e.market
    → Uncrossed e.market
    → pos 0 ≤ℤ min_lots
    → Sound (create_order e accnt ref sd lots ticks min_lots now resp)
create_order-IsValid e accnt ref sd lots ticks min_lots now resp trade v u h =
    let (s, sesss) = sess e.max_execs accnt e.sesss in
    let e' = record e { sesss = sesss } in
    elim (Option-cases (check_order e' s ref lots min_lots now)) [
      | inl passed ↦
          subst Sound (sym (create_order-passed e accnt ref sd lots ticks min_lots now resp passed))
            (start_order-Sound e' accnt ref sd lots ticks min_lots now resp trade v u
              (check_order-lots e' s ref lots min_lots now passed h))
      | inr (x, refused) ↦
          subst Sound
            (sym (create_order-throws e accnt ref sd lots ticks min_lots now resp x refused)) (v, u)
    ]
