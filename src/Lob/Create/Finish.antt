-- ===== src/Lob/Create/Finish.antt =====
-- `create_order` from the match on: what the placed order and the committed matches leave.
use swirly.Base.{
  ℕ, ◌≤◌, ◌≡◌, refl, sym, ap, ◌∙◌, ◌⊎◌, inl, inr, false, not, List, if◌then◌else◌, arith,
  Bool-cases,
}
use mathlib.Core.Path.{subst}
use swirly.Base.Int.{pos, ◌+ℤ◌, ◌≤ℤ◌, +ℤ_parts}
use swirly.Fin.Types.{Side, is_buy}
use swirly.Fin.Order.{Order, done}
use swirly.Fin.MarketSide.Book.{NotIn}
use swirly.Fin.Market.{Market, side}
use swirly.Fin.Market.Valid.{IsValid}
use swirly.Fin.Market.Book.{CanInsert, more_ids}
use swirly.Fin.Market.Take.{IsTradable}
use swirly.Fin.Exec.{Exec}
use swirly.Fin.MsgQueue.{MsgQueue, Posting, complete, thrown, create_execs}
use swirly.Fin.MsgQueue.Post.{Posting-cases}
use swirly.Lob.Sess.{Sess}
use swirly.Lob.Response.{Response, set_market, set_posn}
use swirly.Lob.Engine.{
  Engine, Error, throw, Outcome, Matching, match_orders, maker_side, is_nonempty, touch_posn,
}
use swirly.Lob.Engine.Fills.{sum_lots}
use swirly.Lob.Engine.Matched.{
  maker_of, taker_fills, match_orders-fills, match_orders-sums, match_orders-taker,
  match_orders-same, match_orders-bounds,
}
use swirly.Lob.Create.{finish_order, commit_order, rest_order, unrest_order, commit_matches}
use swirly.Lob.Create.Commit.{Settles, commit_fills}
use swirly.Lob.Create.Uncrossed.{Uncrossed, Outlook, settled-Uncrossed}
use swirly.Lob.Create.Rest.{
  match_loop-max_id, Placeable, rest_order-IsValid, unrest-rest, side_same, rest_order-makers,
}
use swirly.Lob.Create.Taker.{Sound, IsNew, not_done, left_over, whole_total, Settles-as}

module _ (m : Market) (accnt : ℕ) (taker : Order) (now : ℕ) (execs : List Exec) (sesss : List Sess)
    (resp : Response) (new : IsNew m taker) where
  abbrev result : Matching × Order
  result = match_orders m accnt taker now execs sesss resp

  abbrev matched : Market
  matched = record m { max_id = result.0.max_id }

  nonneg : pos 0 ≤ℤ taker.resd_lots
  nonneg = omega (arith, new.open_lots)

  ids_grow : m.max_id ≤ result.0.max_id
  unfolding match_orders
  ids_grow = match_loop-max_id m accnt taker now (maker_side taker.side m).orders _

  matched-IsValid : IsValid matched
  matched-IsValid = more_ids m result.0.max_id ids_grow new.valid

  result-CanInsert : done result.1 ≡ false → CanInsert matched result.1
  result-CanInsert d =
      let (resd, exec) = match_orders-taker m accnt taker now execs sesss resp nonneg in
      let (id, sd, ticks, lots) = match_orders-same m accnt taker now execs sesss resp nonneg in
      let (low, high) =
        match_orders-bounds m accnt taker now execs sesss resp nonneg new.tradable new.valid in
      let filled : result.1.exec_lots ≡ pos 0 +ℤ result.0.sum_lots =
        subst (λ n. result.1.exec_lots ≡ n +ℤ result.0.sum_lots) new.unfilled exec in
      record {
        sided = subst IsTradable (sym sd) new.tradable;
        fresh_bid = subst (λ i. NotIn i m.bid_side.orders) (sym id) new.fresh_bid;
        fresh_offer = subst (λ i. NotIn i m.offer_side.orders) (sym id) new.fresh_offer;
        allocated = omega (arith, id, new.allocated, ids_grow);
        open_lots =
            (left_over taker.resd_lots result.0.sum_lots result.1.resd_lots resd high
              (not_done result.1 d)).0;
        filled_lots =
            subst (λ n. pos 0 ≤ℤ n) (sym filled)
              (omega (arith, low, +ℤ_parts (pos 0) result.0.sum_lots));
        total_lots =
            whole_total taker.resd_lots result.0.sum_lots result.1.resd_lots result.1.exec_lots resd
              filled
            ∙ new.whole
            ∙ sym lots;
      }

  result-Placeable : Placeable matched result.1
  result-Placeable = elim (Bool-cases (done result.1)) [
    | inl d ↦ inl d
    | inr d ↦ inr (d, result-CanInsert d)
  ]

  -- Some of an order that is not done is left once its fills are known.
  result-Outlook : Outlook result.1 taker.resd_lots result.0.sum_lots
  result-Outlook =
      let (resd, exec) = match_orders-taker m accnt taker now execs sesss resp nonneg in
      let (low, high) =
        match_orders-bounds m accnt taker now execs sesss resp nonneg new.tradable new.valid in
      elim (Bool-cases (done result.1)) [
        | inl d ↦ inl d
        | inr d ↦ inr (
          d,
          (left_over taker.resd_lots result.0.sum_lots result.1.resd_lots resd high
              (not_done result.1 d)).1,
        )
      ]

  sides :
      (sd maker : Side)
      → IsTradable sd
      → IsTradable maker
      → is_buy maker ≡ not (is_buy sd)
      → (sd ≡ Side.buy) × (maker ≡ Side.sell) ⊎ (sd ≡ Side.sell) × (maker ≡ Side.buy)
  sides sd maker (inl a) (inl b) h = absurd (cc)
  sides sd maker (inl a) (inr b) h = inl (a, b)
  sides sd maker (inr a) (inl b) h = inr (a, b)
  sides sd maker (inr a) (inr b) h = absurd (cc)

  -- Once the order rests, if it is not done, and its matches are committed.
  committed :
      (sesss' : List Sess)
      → let m' =
          (commit_matches accnt now result.0.matches (rest_order result.1 matched, sesss')).0 in
        IsValid m' × Uncrossed m'
  committed sesss' =
      let (id, sd, ticks, lots) = match_orders-same m accnt taker now execs sesss resp nonneg in
      let (maker, mt, opposed, same) = maker_of taker.side m new.tradable in
      let opposed' : is_buy maker ≡ not (is_buy result.1.side) = rw sd opposed in
      let at : (side (rest_order result.1 matched) maker).orders
          ≡ (maker_side taker.side m).orders =
        ap (λ s. s.orders)
          (rest_order-makers matched result.1 maker opposed'
            ∙ side_same m result.0.max_id maker
            ∙ same) in
      let t =
        commit_fills taker.side maker taker.ticks taker.resd_lots accnt now
          (maker_side taker.side m).orders result.0.matches (rest_order result.1 matched) sesss' mt
          opposed (rest_order-IsValid matched result.1 matched-IsValid result-Placeable) at nonneg
          (match_orders-fills m accnt taker now execs sesss resp nonneg) in
      let m' =
        (commit_matches accnt now result.0.matches (rest_order result.1 matched, sesss')).0 in
      let filled = (match_orders-sums m accnt taker now execs sesss resp nonneg).0 in
      let t' : Settles result.1.side result.1.ticks taker.resd_lots result.0.sum_lots maker
          (rest_order result.1 matched) m' =
        Settles-as taker.side result.1.side taker.ticks result.1.ticks taker.resd_lots
          (sum_lots (taker_fills m taker)) result.0.sum_lots maker (rest_order result.1 matched) m'
          (sym sd) (sym ticks) (sym filled) t in
      (
        t.valid,
        settled-Uncrossed matched m' result.1 taker.resd_lots result.0.sum_lots maker
            (sides result.1.side maker (subst IsTradable (sym sd) new.tradable) mt opposed')
            matched-IsValid new.uncrossed result-Outlook t',
      )

  placed_in : Engine → Engine
  placed_in e = record e {
    market = rest_order result.1 matched;
    sesss =
        if is_nonempty result.0.matches
        then touch_posn matched accnt result.0.sesss
        else result.0.sesss;
  }

  reply : Response
  reply =
      let r = set_market m.id result.0.resp in
      if is_nonempty result.0.matches then set_posn accnt m.id r else r

  -- `finish_order` by the outcome of its post to the queue.
  finish_by : Engine → Exec → Posting → Outcome
  finish_by e exec posted = elim posted [
    | thrown mq ↦
        throw Error.queue_full
          (record (placed_in e) { market = unrest_order result.1 (placed_in e).market; mq = mq })
          reply
    | complete mq ↦
        commit_order (record (placed_in e) { mq = mq }) accnt result.1 exec result.0 reply now
  ]

  finish_order-by :
      (e : Engine) (exec : Exec)
      → finish_order (record e { market = m }) accnt exec now result
        ≡ finish_by e exec (create_execs result.0.execs e.mq)
  unfolding finish_order finish_by placed_in reply
  finish_order-by e exec = refl

  finish_full :
      (e : Engine) (exec : Exec) (mq : MsgQueue)
      → create_execs result.0.execs e.mq ≡ thrown mq
      → (finish_order (record e { market = m }) accnt exec now result).engine.market
        ≡ unrest_order result.1 (rest_order result.1 matched)
  unfolding finish_by placed_in
  finish_full e exec mq full =
      ap (λ r. r.engine.market) (finish_order-by e exec)
      ∙ ap (λ q. (finish_by e exec q).engine.market) full

  finish_posted :
      (e : Engine) (exec : Exec) (mq : MsgQueue)
      → create_execs result.0.execs e.mq ≡ complete mq
      → (sesss' : List Sess) × ((finish_order
            (record e { market = m })
            accnt
            exec
            now
            result).engine.market
          ≡ (commit_matches accnt now result.0.matches (rest_order result.1 matched, sesss')).0)
  unfolding finish_by placed_in commit_order
  finish_posted e exec mq posted = (
    _,
    ap (λ r. r.engine.market) (finish_order-by e exec)
        ∙ ap (λ q. (finish_by e exec q).engine.market) posted,
  )

  -- The outcome of the rest of `create_order`, in an engine with this market.
  pub finish_order-Sound :
      (e : Engine) (exec : Exec)
      → Sound (finish_order (record e { market = m }) accnt exec now result)
  finish_order-Sound e exec = elim (Posting-cases (create_execs result.0.execs e.mq)) [
    | inl (mq, full) ↦
        subst (λ n. IsValid n × Uncrossed n)
          (sym (
            finish_full e exec mq full
            ∙ unrest-rest matched result.1 matched-IsValid result-Placeable))
          (matched-IsValid, new.uncrossed)
    | inr (mq, posted) ↦
        let (sesss', at) = finish_posted e exec mq posted in
        subst (λ n. IsValid n × Uncrossed n) (sym at) (committed sesss')
  ]
