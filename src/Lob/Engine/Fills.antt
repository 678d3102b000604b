-- ===== src/Lob/Engine/Fills.antt =====
-- What a match of `match_orders` fills: a description of it apart from the code, that takes the
-- crossing orders in their priority until the lots are used up.
use swirly.Base.{
  append_nil, ℕ, not, ◌&&◌, ◌≡◌, refl, sym, ap, inl, inr, Bool, true, false, List, [], ◌∷◌, ◌++◌,
  if◌then◌else◌, map, arith, Bool-cases,
}
use swirly.Base.Int.{
  ℤ, pos, ◌+ℤ◌, ◌-ℤ◌, ltb_ℤ, leb_ℤ, ◌≤ℤ◌, ◌<ℤ◌, int_laws, +ℤ_parts, -ℤ_parts, +ℤ_assoc, add_zero,
}
use swirly.Fin.Types.{Side, cost, is_buy}
use swirly.Fin.Order.{Order}
use swirly.Fin.Exec
use swirly.Fin.Market.{Market}
use swirly.Lob.Engine.{Match, Matching, match_one, match_loop, min_ℤ, spread, direct_of, new_match}

pub record Fill : Type 0 where
  pub maker_order : ℕ
  pub lots : ℤ
  pub ticks : ℤ

abbrev pub fill_of : Match → Fill
fill_of x = record { maker_order = x.maker_order; lots = x.lots; ticks = x.maker_trade.last_ticks }

-- A buyer takes what is offered at his limit or below, a seller what is bid at his or above.
abbrev pub crosses : Side → ℤ → ℤ → Bool
crosses side limit ticks = if is_buy side then leb_ℤ ticks limit else leb_ℤ limit ticks

abbrev pub fills : Side → ℤ → ℤ → List Order → List Fill
fills side limit need [] = []
fills side limit need (o ∷ os) =
    let lots = min_ℤ need o.resd_lots in
    let rest = fills side limit (need -ℤ lots) os in
    if ltb_ℤ (pos 0) need && crosses side limit o.ticks
    then record { maker_order = o.id; lots = lots; ticks = o.ticks } ∷ rest
    else []

abbrev pub sum_lots : List Fill → ℤ
sum_lots [] = pos 0
sum_lots (f ∷ fs) = f.lots +ℤ sum_lots fs

abbrev pub sum_cost : List Fill → ℤ
sum_cost [] = pos 0
sum_cost (f ∷ fs) = cost f.lots f.ticks +ℤ sum_cost fs

-- All that rests at crossing prices, wherever it stands in the list.
abbrev pub liquidity : Side → ℤ → List Order → ℤ
liquidity side limit [] = pos 0
liquidity side limit (o ∷ os) =
    (if crosses side limit o.ticks then o.resd_lots else pos 0) +ℤ liquidity side limit os

abbrev pub IsOpen : Order → Type 0
IsOpen o = pos 0 <ℤ o.resd_lots

crosses-spread :
    (taker maker : Order)
    → ltb_ℤ (pos 0) (spread taker maker (direct_of taker.side))
      ≡ not (crosses taker.side taker.ticks maker.ticks)
unfolding spread
crosses-spread taker maker = elim (Bool-cases (is_buy taker.side)) [
  | inl h ↦ rw h (ground (arith, -ℤ_parts maker.ticks taker.ticks))
  | inr h ↦ rw h (ground (arith, -ℤ_parts taker.ticks maker.ticks))
]

map-snoc {ℓ κ} :
    {A : Type ℓ} {B : Type κ} (f : A → B) (xs : List A) (x : A)
    → map f (xs ++ x ∷ []) ≡ map f xs ++ f x ∷ []
map-snoc f [] x = refl
map-snoc f (y ∷ xs) x = ap (λ t. f y ∷ t) (map-snoc f xs x)

append_snoc {ℓ} :
    {A : Type ℓ} (xs : List A) (x : A) (ys : List A) → (xs ++ x ∷ []) ++ ys ≡ xs ++ x ∷ ys
append_snoc [] x ys = refl
append_snoc (y ∷ xs) x ys = ap (λ t. y ∷ t) (append_snoc xs x ys)

-- What is left of the taker's lots.
abbrev pub need : Order → Matching → ℤ
need taker st = taker.resd_lots -ℤ st.sum_lots

-- The part of a taker's matching that the fills determine.
module _ (m : Market) (accnt : ℕ) (taker : Order) (now : ℕ) where
  abbrev pub loop : List Order → Matching → Matching
  loop = match_loop m accnt taker (direct_of taker.side) now

  abbrev pub step : Order → Matching → Matching
  step = match_one m accnt taker now

  pub loop-stop :
      (o : Order) (os : List Order) (st : Matching)
      → st.sum_lots ≤ℤ taker.resd_lots
      → ltb_ℤ (pos 0) (need taker st) && crosses taker.side taker.ticks o.ticks ≡ false
      → loop (o ∷ os) st ≡ st
  unfolding match_loop
  loop-stop o os st le h =
      ground (arith, crosses-spread taker o, -ℤ_parts taker.resd_lots st.sum_lots)

  pub loop-go :
      (o : Order) (os : List Order) (st : Matching)
      → ltb_ℤ (pos 0) (need taker st) && crosses taker.side taker.ticks o.ticks ≡ true
      → loop (o ∷ os) st ≡ loop os (step o st)
  unfolding match_loop
  loop-go o os st h = ground (arith, crosses-spread taker o, -ℤ_parts taker.resd_lots st.sum_lots)

  step-need :
      (o : Order) (st : Matching)
      → need taker (step o st) ≡ need taker st -ℤ min_ℤ (need taker st) o.resd_lots
  unfolding match_one
  step-need o st = omega int_laws

  pub step-le :
      (o : Order) (st : Matching)
      → st.sum_lots ≤ℤ taker.resd_lots
      → (step o st).sum_lots ≤ℤ taker.resd_lots
  unfolding match_one
  step-le o st le =
      let lots = min_ℤ (need taker st) o.resd_lots in
      ground (arith, -ℤ_parts taker.resd_lots st.sum_lots, +ℤ_parts st.sum_lots lots)

  abbrev pub next_fills : List Order → Matching → List Fill
  next_fills os st = fills taker.side taker.ticks (need taker st) os

  pub next_fills-stop :
      (o : Order) (os : List Order) (st : Matching)
      → ltb_ℤ (pos 0) (need taker st) && crosses taker.side taker.ticks o.ticks ≡ false
      → next_fills (o ∷ os) st ≡ []
  next_fills-stop o os st h = rw h

  abbrev pub first_fill : Order → Matching → Fill
  first_fill o st = record {
    maker_order = o.id;
    lots = min_ℤ (need taker st) o.resd_lots;
    ticks = o.ticks;
  }

  pub next_fills-go :
      (o : Order) (os : List Order) (st : Matching)
      → ltb_ℤ (pos 0) (need taker st) && crosses taker.side taker.ticks o.ticks ≡ true
      → next_fills (o ∷ os) st ≡ first_fill o st ∷ next_fills os (step o st)
  next_fills-go o os st h = rw (h, step-need o st)

  step-matches :
      (o : Order) (st : Matching)
      → map fill_of (step o st).matches ≡ map fill_of st.matches ++ first_fill o st ∷ []
  unfolding match_one new_match Exec.trade_last Exec.trade
  step-matches o st = map-snoc fill_of st.matches _

  pub match_loop-fills :
      (os : List Order) (st : Matching)
      → st.sum_lots ≤ℤ taker.resd_lots
      → map fill_of (loop os st).matches ≡ map fill_of st.matches ++ next_fills os st
  unfolding match_loop
  match_loop-fills [] st le = sym (append_nil _)
  match_loop-fills (o ∷ os) st le =
      elim (Bool-cases (ltb_ℤ (pos 0) (need taker st) && crosses taker.side taker.ticks o.ticks)) [
        | inl h ↦
            rw
              (
                loop-go o os st h,
                next_fills-go o os st h,
                match_loop-fills os (step o st) (step-le o st le),
                step-matches o st,
              )
              (append_snoc _ _ _)
        | inr h ↦ rw (loop-stop o os st le h, next_fills-stop o os st h) (sym (append_nil _))
      ]

  step-sums :
      (o : Order) (st : Matching)
      → ((step o st).sum_lots ≡ st.sum_lots +ℤ (first_fill o st).lots)
        × ((step o st).sum_cost
            ≡ st.sum_cost +ℤ cost (first_fill o st).lots (first_fill o st).ticks)
  unfolding match_one
  step-sums o st = (refl, refl)

  pub match_loop-sums :
      (os : List Order) (st : Matching)
      → st.sum_lots ≤ℤ taker.resd_lots
      → ((loop os st).sum_lots ≡ st.sum_lots +ℤ sum_lots (next_fills os st))
        × ((loop os st).sum_cost ≡ st.sum_cost +ℤ sum_cost (next_fills os st))
  unfolding match_loop
  match_loop-sums [] st le = (sym (add_zero _), sym (add_zero _))
  match_loop-sums (o ∷ os) st le =
      elim (Bool-cases (ltb_ℤ (pos 0) (need taker st) && crosses taker.side taker.ticks o.ticks)) [
        | inl h ↦
            let (lots, costs) = match_loop-sums os (step o st) (step-le o st le) in
            let (step_lots, step_cost) = step-sums o st in
            rw (loop-go o os st h, next_fills-go o os st h, lots, costs, step_lots, step_cost)
              (+ℤ_assoc _ _ _, +ℤ_assoc _ _ _)
        | inr h ↦
            rw (loop-stop o os st le h, next_fills-stop o os st h)
              (sym (add_zero _), sym (add_zero _))
      ]
