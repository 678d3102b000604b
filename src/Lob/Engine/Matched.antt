-- ===== src/Lob/Engine/Matched.antt =====
-- What `match_orders` does on a valid market.
use swirly.Base.{ℕ, ◌≡◌, refl, sym, ap, ◌∙◌, ◌⊎◌, inl, inr, not, List, [], ◌∷◌, map, All, arith}
use mathlib.Core.Path.{subst}
use swirly.Base.Int.{ℤ, pos, ◌+ℤ◌, ◌-ℤ◌, ◌≤ℤ◌, sub-zero, +ℤ_comm, add_zero}
use swirly.Fin.Types.{Side, is_buy}
use swirly.Fin.Order.{Order}
use swirly.Fin.Order
use swirly.Fin.MarketSide.Book.{Ascending, Sorted-Ascending}
use swirly.Fin.Market.{Market, side}
use swirly.Fin.Market.Valid.{IsValid}
use swirly.Fin.Market.Take.{IsTradable}
use swirly.Fin.Exec.{Exec}
use swirly.Lob.Sess.{Sess}
use swirly.Lob.Response.{Response}
use swirly.Lob.Engine.{Matching, match_orders, maker_side, min_ℤ, traded}
use swirly.Lob.Engine.Fills.{
  Fill, fills, fill_of, sum_lots, sum_cost, liquidity, match_loop-fills, match_loop-sums,
}
use swirly.Lob.Engine.Liquidity.{Opposes, sum_lots-fills, liquidity-nonneg}
use swirly.Lob.Create.Commit.{opposing}

-- The fills of a taker in a market.
abbrev pub taker_fills : Market → Order → List Fill
taker_fills m taker = fills taker.side taker.ticks taker.resd_lots (maker_side taker.side m).orders

List-cases {ℓ} : {A : Type ℓ} (xs : List A) → (xs ≡ []) ⊎ ((y : A) × (ys : List A) × (xs ≡ y ∷ ys))
List-cases [] = inl refl
List-cases (x ∷ xs) = inr (x, xs, refl)

traded-lots :
    (taker : Order) (st : Matching) (now : ℕ)
    → (st.matches ≡ [] → st.sum_lots ≡ pos 0)
    → ((traded taker st now).resd_lots ≡ taker.resd_lots -ℤ st.sum_lots)
      × ((traded taker st now).exec_lots ≡ taker.exec_lots +ℤ st.sum_lots)
unfolding Order.trade
traded-lots taker st now h = elim (List-cases st.matches) [
  | inl e ↦ rw (e, h e) (sym (sub-zero taker.resd_lots), sym (add_zero taker.exec_lots))
  | inr (x, xs, e) ↦ rw e (refl, refl)
]

traded-same :
    (taker : Order) (st : Matching) (now : ℕ)
    → ((traded taker st now).id ≡ taker.id)
      × ((traded taker st now).side ≡ taker.side)
      × ((traded taker st now).ticks ≡ taker.ticks)
      × ((traded taker st now).lots ≡ taker.lots)
unfolding Order.trade
traded-same taker st now = elim (List-cases st.matches) [
  | inl e ↦ rw e (refl, refl, refl, refl)
  | inr (x, xs, e) ↦ rw e (refl, refl, refl, refl)
]

-- The makers' side of a taker's, and the orders on it.
pub maker_of :
    (sd : Side) (m : Market)
    → IsTradable sd
    → (maker : Side) × IsTradable maker
      × (is_buy maker ≡ not (is_buy sd))
      × (side m maker ≡ maker_side sd m)
unfolding side
maker_of sd m (inl b) = (Side.sell, inr refl, rw b, rw b)
maker_of sd m (inr b) = (Side.buy, inl refl, rw b, rw b)

min-bounds : (a b : ℤ) → pos 0 ≤ℤ a → pos 0 ≤ℤ b → (pos 0 ≤ℤ min_ℤ a b) × (min_ℤ a b ≤ℤ a)
min-bounds a b h k = ground arith

module _ (m : Market) (accnt : ℕ) (taker : Order) (now : ℕ) (execs : List Exec) (sesss : List Sess)
    (resp : Response) (open_lots : pos 0 ≤ℤ taker.resd_lots) where
  abbrev result : Matching × Order
  result = match_orders m accnt taker now execs sesss resp

  -- For a taker whose residual lots are not negative, the maker ids, lots and prices of the
  -- matches that match_orders makes are those of the fills: the orders of the other side from the
  -- first on, each for the smaller of its lots and what is still needed, while something is
  -- needed and the price crosses.
  pub match_orders-fills : map fill_of result.0.matches ≡ taker_fills m taker
  unfolding match_orders
  match_orders-fills =
      match_loop-fills m accnt taker now (maker_side taker.side m).orders _ open_lots
      ∙ ap (λ n. fills taker.side taker.ticks n (maker_side taker.side m).orders)
          (sub-zero taker.resd_lots)

  -- For a taker whose residual lots are not negative, the sums of lots and of cost that
  -- match_orders keeps are the sums over the fills, each fill at the price of the maker.
  pub match_orders-sums :
      (result.0.sum_lots ≡ sum_lots (taker_fills m taker))
      × (result.0.sum_cost ≡ sum_cost (taker_fills m taker))
  unfolding match_orders
  match_orders-sums =
      let (lots, costs) =
        match_loop-sums m accnt taker now (maker_side taker.side m).orders _ open_lots in
      let drop =
        ap (λ n. fills taker.side taker.ticks n (maker_side taker.side m).orders)
          (sub-zero taker.resd_lots) in
      (
        lots ∙ +ℤ_comm (pos 0) _ ∙ add_zero _ ∙ ap sum_lots drop,
        costs ∙ +ℤ_comm (pos 0) _ ∙ add_zero _ ∙ ap sum_cost drop,
      )

  sum_lots-nil : map fill_of result.0.matches ≡ [] → result.0.sum_lots ≡ pos 0
  sum_lots-nil e = match_orders-sums.0 ∙ ap sum_lots (sym match_orders-fills ∙ e)

  -- For a taker whose residual lots are not negative, match_orders takes the matched lots from
  -- the residual lots of the order and adds them to its executed lots, also where nothing
  -- matches.
  pub match_orders-taker :
      (result.1.resd_lots ≡ taker.resd_lots -ℤ result.0.sum_lots)
      × (result.1.exec_lots ≡ taker.exec_lots +ℤ result.0.sum_lots)
  unfolding match_orders
  match_orders-taker = traded-lots taker result.0 now (λ e. sum_lots-nil (ap (map fill_of) e))

  pub match_orders-same :
      (result.1.id ≡ taker.id)
      × (result.1.side ≡ taker.side)
      × (result.1.ticks ≡ taker.ticks)
      × (result.1.lots ≡ taker.lots)
  unfolding match_orders
  match_orders-same = traded-same taker result.0 now

  -- In a valid market, for a taker on the buy or the sell side whose residual lots are not
  -- negative, the lots that match_orders matches are the smaller of the residual lots and the sum
  -- of the residual lots of all orders of the other side at crossing prices.
  pub match_orders-lots :
      IsTradable taker.side
      → IsValid m
      → result.0.sum_lots
        ≡ min_ℤ taker.resd_lots (liquidity taker.side taker.ticks (maker_side taker.side m).orders)
  match_orders-lots tr v =
      let (maker, mt, opposed, same) = maker_of taker.side m tr in
      let (opp, sorted) = opposing taker.side maker m mt opposed v in
      let (k, up) = Sorted-Ascending (side m maker).orders sorted in
      match_orders-sums.0
      ∙ sum_lots-fills taker.side taker.ticks taker.resd_lots (maker_side taker.side m).orders k
          (subst (λ s. All (Opposes taker.side) s.orders) same opp)
          (subst (λ s. Ascending k s.orders) same up) open_lots

  -- A match fills no more than the taker wants.
  pub match_orders-bounds :
      IsTradable taker.side
      → IsValid m
      → (pos 0 ≤ℤ result.0.sum_lots) × (result.0.sum_lots ≤ℤ taker.resd_lots)
  match_orders-bounds tr v =
      let (maker, mt, opposed, same) = maker_of taker.side m tr in
      let (opp, sorted) = opposing taker.side maker m mt opposed v in
      let os = (maker_side taker.side m).orders in
      let some_left =
        liquidity-nonneg taker.side taker.ticks os
          (subst (λ s. All (Opposes taker.side) s.orders) same opp) in
      subst (λ n. (pos 0 ≤ℤ n) × (n ≤ℤ taker.resd_lots)) (sym (match_orders-lots tr v))
        (min-bounds taker.resd_lots (liquidity taker.side taker.ticks os) open_lots some_left)
