-- ===== src/Fin/Posn/Net.antt =====
-- What a trade does to a net position, and the symmetry of buying and selling.
use swirly.Base.{◌≡◌, ap, inl, inr, ◌||◌, if◌then◌else◌, arith, Bool-cases}
use swirly.Base.Int.{
  ℤ, pos, neg, ◌+ℤ◌, ◌-ℤ◌, ◌*ℤ◌, ◌≤ℤ◌, ◌<ℤ◌, ltb_ℤ, leb_ℤ, int_laws, eq_of_parts, +ℤ_parts,
  -ℤ_parts,
}
use swirly.Fin.Types.{Side, is_buy, cost}
use swirly.Fin.Posn.{Posn, net_lots, add_buy, add_sell, add_trade}

-- The position of somebody who took the other side of every trade.
pub mirror : Posn → Posn
mirror p = record p {
  buy_lots = p.sell_lots;
  buy_cost = p.sell_cost;
  sell_lots = p.buy_lots;
  sell_cost = p.buy_cost;
  net_cost = neg p.net_cost;
}

cost-neg : (a t : ℤ) → cost (neg a) t ≡ neg (cost a t)
unfolding cost ◌-ℤ◌ ◌*ℤ◌
cost-neg (pos a) (pos t) = ground arith
cost-neg (pos a) (ℤ.negsuc t) = ground arith
cost-neg (ℤ.negsuc a) (pos t) = ground arith
cost-neg (ℤ.negsuc a) (ℤ.negsuc t) = ground arith

neg-sub : (c k : ℤ) → neg (c -ℤ k) ≡ neg c +ℤ k
neg-sub c k = omega int_laws

neg-zero : neg (pos 0) ≡ pos 0
neg-zero = omega int_laws

neg-net : (b s lots : ℤ) → s -ℤ b +ℤ lots ≡ neg (b -ℤ s -ℤ lots)
neg-net b s lots = omega int_laws

sell_cost_mirror :
    (n lots c k ticks : ℤ)
    → neg (
        if ltb_ℤ (pos 0) n || leb_ℤ n (neg lots)
        then c -ℤ k
        else if ltb_ℤ n (pos 0)
        then cost n ticks
        else pos 0)
      ≡ (if ltb_ℤ (neg n) (pos 0) || leb_ℤ lots (neg n)
          then neg c +ℤ k
          else if ltb_ℤ (pos 0) (neg n)
          then cost (neg n) ticks
          else pos 0)
sell_cost_mirror n lots c k ticks =
    ground
      (arith, -ℤ_parts (pos 0) n, -ℤ_parts (pos 0) lots, neg-sub c k, neg-zero, cost-neg n ticks)

-- Selling lots from a position is buying them on the position with its two sides exchanged and
-- its net cost negated.
pub add_sell-mirror :
    (lots ticks : ℤ) (p : Posn) → mirror (add_sell lots ticks p) ≡ add_buy lots ticks (mirror p)
unfolding mirror add_sell add_buy net_lots
add_sell-mirror lots ticks p = rw (neg-net p.buy_lots p.sell_lots lots) (
    ap
      (λ c. record p {
        buy_lots = p.sell_lots +ℤ lots;
        buy_cost = p.sell_cost +ℤ cost lots ticks;
        sell_lots = p.buy_lots;
        sell_cost = p.buy_cost;
        net_cost = c;
      })
      (sell_cost_mirror (p.buy_lots -ℤ p.sell_lots -ℤ lots) lots p.net_cost (cost lots ticks)
        ticks))

-- How a trade splits a net position: what closes lots of the other sign, and what opens new ones.
pub data Buys (n lots : ℤ) : Type 0 where
  extends : pos 0 ≤ℤ n → Buys n lots
  closes : n +ℤ lots <ℤ pos 0 → Buys n lots
  flattens : n <ℤ pos 0 → n +ℤ lots ≡ pos 0 → Buys n lots
  crosses : n <ℤ pos 0 → pos 0 <ℤ n +ℤ lots → Buys n lots

buy_cases : (n lots : ℤ) → Buys n lots
buy_cases n lots = elim (Bool-cases (leb_ℤ (pos 0) n)) [
  | inl long ↦ Buys.extends (ground arith)
  | inr short ↦ elim (Bool-cases (ltb_ℤ (n +ℤ lots) (pos 0))) [
    | inl part ↦ Buys.closes (ground arith)
    | inr whole ↦ elim (Bool-cases (ltb_ℤ (pos 0) (n +ℤ lots))) [
      | inl over ↦ Buys.crosses (ground arith) (ground arith)
      | inr flat ↦ Buys.flattens (ground arith) (eq_of_parts (n +ℤ lots) (pos 0) (ground arith))
    ]
  ]
]

-- What the net cost of a position becomes when lots are bought: the cost is added while the position
-- grows or shrinks on its side, and a position that crosses zero starts afresh at the trade's price.
pub bought_cost : (n lots c ticks : ℤ) → Buys n lots → ℤ
bought_cost n lots c ticks (Buys.extends _) = c +ℤ cost lots ticks
bought_cost n lots c ticks (Buys.closes _) = c +ℤ cost lots ticks
bought_cost n lots c ticks (Buys.flattens _ _) = pos 0
bought_cost n lots c ticks (Buys.crosses _ _) = cost (n +ℤ lots) ticks

-- For a purchase of more than no lots, the net cost that add_buy leaves is that of the case of
-- the net position: the cost is added where a long position grows or a short one shrinks, is 0
-- where a short position is closed, and is that of the lots beyond it where a short position
-- turns long.
pub add_buy-bought_cost :
    (lots ticks : ℤ) (p : Posn)
    → pos 0 <ℤ lots
    → (b : Buys (net_lots p) lots)
    → (add_buy lots ticks p).net_cost ≡ bought_cost (net_lots p) lots p.net_cost ticks b
unfolding add_buy bought_cost
add_buy-bought_cost lots ticks p h (Buys.extends l) = ground (arith, +ℤ_parts (net_lots p) lots)
add_buy-bought_cost lots ticks p h (Buys.closes l) = ground (arith, +ℤ_parts (net_lots p) lots)
add_buy-bought_cost lots ticks p h (Buys.flattens l z) = ground (arith, +ℤ_parts (net_lots p) lots)
add_buy-bought_cost lots ticks p h (Buys.crosses l g) = ground (arith, +ℤ_parts (net_lots p) lots)

net-buy : (lots ticks : ℤ) (p : Posn) → net_lots (add_buy lots ticks p) ≡ net_lots p +ℤ lots
unfolding net_lots add_buy
net-buy lots ticks p = omega int_laws

net-sell : (lots ticks : ℤ) (p : Posn) → net_lots (add_sell lots ticks p) ≡ net_lots p +ℤ neg lots
unfolding net_lots add_sell
net-sell lots ticks p = omega int_laws

net-sub : (lots ticks : ℤ) (p : Posn) → net_lots (add_sell lots ticks p) ≡ net_lots p -ℤ lots
unfolding net_lots add_sell
net-sub lots ticks p = omega int_laws

flat-buy :
    (lots ticks : ℤ) (p : Posn)
    → pos 0 <ℤ lots
    → net_lots (add_buy lots ticks p) ≡ pos 0
    → (add_buy lots ticks p).net_cost ≡ pos 0
unfolding add_buy
flat-buy lots ticks p h z = ground (arith, net-buy lots ticks p)

flat-sell :
    (lots ticks : ℤ) (p : Posn)
    → pos 0 <ℤ lots
    → net_lots (add_sell lots ticks p) ≡ pos 0
    → (add_sell lots ticks p).net_cost ≡ pos 0
unfolding add_sell
flat-sell lots ticks p h z = ground (arith, net-sub lots ticks p, -ℤ_parts (pos 0) lots)

abbrev pub signed : Side → ℤ → ℤ
signed side lots = if is_buy side then lots else neg lots

-- A trade of some lots, more than none, moves the net lots of a position by those lots, up for a
-- buyer and down for a seller, and if it leaves the position flat its net cost is 0.
pub add_trade-net :
    (side : Side) (lots ticks : ℤ) (p : Posn)
    → pos 0 <ℤ lots
    → (net_lots (add_trade side lots ticks p) ≡ net_lots p +ℤ signed side lots)
      × (net_lots (add_trade side lots ticks p) ≡ pos 0
          → (add_trade side lots ticks p).net_cost ≡ pos 0)
unfolding add_trade
add_trade-net side lots ticks p h = elim (Bool-cases (is_buy side)) [
  | inl buy ↦ rw buy (net-buy lots ticks p, flat-buy lots ticks p h)
  | inr sell ↦ rw sell (net-sell lots ticks p, flat-sell lots ticks p h)
]

pub add_trade-net_lots :
    (side : Side) (lots ticks : ℤ) (p : Posn)
    → net_lots (add_trade side lots ticks p) ≡ net_lots p +ℤ signed side lots
unfolding add_trade
add_trade-net_lots side lots ticks p = elim (Bool-cases (is_buy side)) [
  | inl buy ↦ rw buy (net-buy lots ticks p)
  | inr sell ↦ rw sell (net-sell lots ticks p)
]
