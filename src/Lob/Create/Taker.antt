-- ===== src/Lob/Create/Taker.antt =====
-- A new order and what is left of it after its match.
use swirly.Base.{◌≤◌, ◌≡◌, false, arith}
use mathlib.Core.Path.{subst}
use swirly.Base.Int.{ℤ, pos, ◌+ℤ◌, ◌-ℤ◌, ◌==ℤ◌, ◌≤ℤ◌, ◌<ℤ◌, int_laws, -ℤ_parts}
use swirly.Fin.Types.{Side}
use swirly.Fin.Order.{Order, done}
use swirly.Fin.MarketSide.Book.{NotIn}
use swirly.Fin.Market.{Market}
use swirly.Fin.Market.Valid.{IsValid}
use swirly.Fin.Market.Take.{IsTradable}
use swirly.Lob.Engine.{Outcome}
use swirly.Lob.Create.Commit.{Settles}
use swirly.Lob.Create.Uncrossed.{Uncrossed}

-- The market of an outcome is valid, and its bids are all below its offers.
abbrev pub Sound : Outcome → Type 0
Sound out = IsValid out.engine.market × Uncrossed out.engine.market

-- A new order in a market that has given it its id.
pub record IsNew (m : Market) (taker : Order) : Type 0 where
  pub valid : IsValid m
  pub uncrossed : Uncrossed m
  pub tradable : IsTradable taker.side
  pub fresh_bid : NotIn taker.id m.bid_side.orders
  pub fresh_offer : NotIn taker.id m.offer_side.orders
  pub allocated : taker.id ≤ m.max_id
  pub open_lots : pos 0 <ℤ taker.resd_lots
  pub unfilled : taker.exec_lots ≡ pos 0
  pub whole : taker.resd_lots ≡ taker.lots

pub not_done : (o : Order) → done o ≡ false → o.resd_lots ==ℤ pos 0 ≡ false
unfolding done
not_done o d = d

pub left_over : (a b c : ℤ) → c ≡ a -ℤ b → b ≤ℤ a → c ==ℤ pos 0 ≡ false → (pos 0 <ℤ c) × (b <ℤ a)
left_over a b c e h n =
    let k : pos 0 ≤ℤ c = rw e (omega (arith, -ℤ_parts a b)) in
    let l : pos 0 <ℤ c = ground arith in
    (l, omega (arith, subst (λ x. pos 0 <ℤ x) e l, -ℤ_parts a b))

pub whole_total : (a b c d : ℤ) → c ≡ a -ℤ b → d ≡ pos 0 +ℤ b → c +ℤ d ≡ a
whole_total a b c d e f = rw (e, f) (omega int_laws)

pub Settles-as :
    (sd sd' : Side) (k k' need f f' : ℤ) (maker : Side) (m m' : Market)
    → sd ≡ sd'
    → k ≡ k'
    → f ≡ f'
    → Settles sd k need f maker m m'
    → Settles sd' k' need f' maker m m'
Settles-as sd sd' k k' need f f' maker m m' p q r t = rw (← p, ← q, ← r) t
