-- ===== src/Lob/Create/Uncrossed.antt =====
-- Once a taker's fills are committed no bid of the market is at or above an offer.
use swirly.Base.{
  ◌≡◌, sym, ap, ◌∙◌, ◌⊎◌, inl, inr, Bool, true, false, List, [], ◌∷◌, if◌then◌else◌, All, arith,
}
use mathlib.Core.Path.{subst}
use swirly.Base.Int.{ℤ, ◌<ℤ◌}
use swirly.Fin.Types.{Side}
use swirly.Fin.Order.{Order, done, set_level}
use swirly.Fin.MarketSide.Book.{place}
use swirly.Fin.MarketSide.Insert.{linked, place-All, insert_order-place}
use swirly.Fin.Market.{Market, side, with_side, insert_order}
use swirly.Fin.Market.Valid.{IsValid}
use swirly.Lob.Engine.Fills.{crosses}
use swirly.Lob.Create.{rest_order}
use swirly.Lob.Create.Commit.{Settles, All-map}

-- No bid at or above an offer.
abbrev pub Uncrossed : Market → Type 0
Uncrossed m = All (λ b. All (λ o. b.ticks <ℤ o.ticks) m.offer_side.orders) m.bid_side.orders

abbrev Pairs : (ℤ → ℤ → Type 0) → List Order → List Order → Type 0
Pairs R xs ys = All (λ x. All (λ y. R x.ticks y.ticks) ys) xs

Pairs-cons :
    (R : ℤ → ℤ → Type 0) (x : Order) (xs ys : List Order)
    → All (λ y. R y.ticks x.ticks) ys
    → Pairs R ys xs
    → Pairs R ys (x ∷ xs)
Pairs-cons R x xs [] a p = tt
Pairs-cons R x xs (y ∷ ys) a p = ((a.0, p.0), Pairs-cons R x xs ys a.1 p.1)

Pairs-nil : (R : ℤ → ℤ → Type 0) (ys : List Order) → Pairs R ys []
Pairs-nil R [] = tt
Pairs-nil R (y ∷ ys) = (tt, Pairs-nil R ys)

Pairs-flip : (R : ℤ → ℤ → Type 0) (xs ys : List Order) → Pairs R xs ys → Pairs (λ a b. R b a) ys xs
Pairs-flip R [] ys p = Pairs-nil (λ a b. R b a) ys
Pairs-flip R (x ∷ xs) ys p = Pairs-cons (λ a b. R b a) x xs ys p.0 (Pairs-flip R xs ys p.1)

-- One side takes at most a new order, and the other gains no price.
Pairs-settle :
    (R : ℤ → ℤ → Type 0) (o : Order) (own makers own' makers' : List Order)
    → ((P : ℤ → Type 0) → All (λ y. P y.ticks) makers → All (λ y. P y.ticks) makers')
    → (own' ≡ own) ⊎ ((own' ≡ place (linked o) own) × All (λ y. R o.ticks y.ticks) makers')
    → Pairs R own makers
    → Pairs R own' makers'
unfolding set_level
Pairs-settle R o own makers own' makers' keeps (inl e) p =
    subst (λ xs. Pairs R xs makers') (sym e) (All-map _ _ own (λ x a. keeps (R x.ticks) a) p)
Pairs-settle R o own makers own' makers' keeps (inr (e, new)) p =
    subst (λ xs. Pairs R xs makers') (sym e)
      (place-All (λ x. All (λ y. R x.ticks y.ticks) makers') (linked o) own new
        (All-map _ _ own (λ x a. keeps (R x.ticks) a) p))

inserted_bid :
    (m : Market) (o : Order)
    → o.side ≡ Side.buy
    → IsValid m
    → ((insert_order m o).bid_side.orders ≡ place (linked o) m.bid_side.orders)
      × ((insert_order m o).offer_side.orders ≡ m.offer_side.orders)
unfolding insert_order side with_side
inserted_bid m o s v =
    ground (
      arith,
      s,
      (insert_order-place m.bid_side o v.bids.sorted v.bids.distinct v.bids.aggregated).1,
    )

inserted_offer :
    (m : Market) (o : Order)
    → o.side ≡ Side.sell
    → IsValid m
    → ((insert_order m o).offer_side.orders ≡ place (linked o) m.offer_side.orders)
      × ((insert_order m o).bid_side.orders ≡ m.bid_side.orders)
unfolding insert_order side with_side
inserted_offer m o s v = ground (
  arith,
  s,
  (insert_order-place m.offer_side o v.offers.sorted v.offers.distinct v.offers.aggregated).1,
)

-- The order is done, or some of it is left after the fills.
abbrev pub Outlook : Order → ℤ → ℤ → Type 0
Outlook o need filled = (done o ≡ true) ⊎ ((done o ≡ false) × (filled <ℤ need))

beyond_offer : (limit ticks : ℤ) → crosses Side.buy limit ticks ≡ false → limit <ℤ ticks
beyond_offer limit ticks h = ground arith

beyond_bid : (limit ticks : ℤ) → crosses Side.sell limit ticks ≡ false → ticks <ℤ limit
beyond_bid limit ticks h = ground arith

buyer-Uncrossed :
    (m m' : Market) (o : Order) (need filled : ℤ)
    → o.side ≡ Side.buy
    → IsValid m
    → Uncrossed m
    → Outlook o need filled
    → Settles Side.buy o.ticks need filled Side.sell (rest_order o m) m'
    → Uncrossed m'
unfolding side
buyer-Uncrossed m m' o need filled s v u (inl d) t =
    let t' : Settles Side.buy o.ticks need filled Side.sell m m' = rw (← (rested d)) t in
    Pairs-settle (λ b a. b <ℤ a) o m.bid_side.orders m.offer_side.orders m'.bid_side.orders
      m'.offer_side.orders t'.keeps (inl (ap (λ x. x.orders) t'.same)) u
  where
    rested : done o ≡ true → rest_order o m ≡ m
    rested d = rw d
buyer-Uncrossed m m' o need filled s v u (inr (d, lt)) t =
    let t' : Settles Side.buy o.ticks need filled Side.sell (insert_order m o) m' =
      subst (λ n. Settles Side.buy o.ticks need filled Side.sell n m') (rested d) t in
    let (bids, offers) = inserted_bid m o s v in
    Pairs-settle (λ b a. b <ℤ a) o m.bid_side.orders m.offer_side.orders m'.bid_side.orders
      m'.offer_side.orders (λ P a. t'.keeps P (subst (All (λ y. P y.ticks)) (sym offers) a))
      (inr (
        ap (λ x. x.orders) t'.same ∙ bids,
        All-map _ _ m'.offer_side.orders (λ y h. beyond_offer o.ticks y.ticks h) (t'.swept lt),
      ))
      u
  where
    rested : done o ≡ false → rest_order o m ≡ insert_order m o
    rested d = rw d

seller-Uncrossed :
    (m m' : Market) (o : Order) (need filled : ℤ)
    → o.side ≡ Side.sell
    → IsValid m
    → Uncrossed m
    → Outlook o need filled
    → Settles Side.sell o.ticks need filled Side.buy (rest_order o m) m'
    → Uncrossed m'
unfolding side
seller-Uncrossed m m' o need filled s v u look t =
    Pairs-flip (λ a b. b <ℤ a) m'.offer_side.orders m'.bid_side.orders (go look)
  where
    rested : (b : Bool) → done o ≡ b → rest_order o m ≡ (if b then m else insert_order m o)
    rested b d = rw d

    flipped : Pairs (λ a b. b <ℤ a) m.offer_side.orders m.bid_side.orders
    flipped = Pairs-flip (λ b a. b <ℤ a) m.bid_side.orders m.offer_side.orders u

    go : Outlook o need filled → Pairs (λ a b. b <ℤ a) m'.offer_side.orders m'.bid_side.orders
    go (inl d) =
        let t' : Settles Side.sell o.ticks need filled Side.buy m m' =
          subst (λ n. Settles Side.sell o.ticks need filled Side.buy n m') (rested true d) t in
        Pairs-settle (λ a b. b <ℤ a) o m.offer_side.orders m.bid_side.orders m'.offer_side.orders
          m'.bid_side.orders t'.keeps (inl (ap (λ x. x.orders) t'.same)) flipped
    go (inr (d, lt)) =
        let t' : Settles Side.sell o.ticks need filled Side.buy (insert_order m o) m' =
          subst (λ n. Settles Side.sell o.ticks need filled Side.buy n m') (rested false d) t in
        let (offers, bids) = inserted_offer m o s v in
        Pairs-settle (λ a b. b <ℤ a) o m.offer_side.orders m.bid_side.orders m'.offer_side.orders
          m'.bid_side.orders (λ P a. t'.keeps P (subst (All (λ y. P y.ticks)) (sym bids) a))
          (inr (
            ap (λ x. x.orders) t'.same ∙ offers,
            All-map _ _ m'.bid_side.orders (λ y h. beyond_bid o.ticks y.ticks h) (t'.swept lt),
          ))
          flipped

-- Committing the fills of an order that rests, if it is not done, leaves the market uncrossed.
pub settled-Uncrossed :
    (m m' : Market) (o : Order) (need filled : ℤ) (maker : Side)
    → (o.side ≡ Side.buy) × (maker ≡ Side.sell) ⊎ (o.side ≡ Side.sell) × (maker ≡ Side.buy)
    → IsValid m
    → Uncrossed m
    → Outlook o need filled
    → Settles o.side o.ticks need filled maker (rest_order o m) m'
    → Uncrossed m'
settled-Uncrossed m m' o need filled maker (inl (s, k)) v u look t =
    buyer-Uncrossed m m' o need filled s v u look (
      subst (λ sd. Settles sd o.ticks need filled Side.sell (rest_order o m) m') s
        (subst (λ mk. Settles o.side o.ticks need filled mk (rest_order o m) m') k t))
settled-Uncrossed m m' o need filled maker (inr (s, k)) v u look t =
    seller-Uncrossed m m' o need filled s v u look (
      subst (λ sd. Settles sd o.ticks need filled Side.buy (rest_order o m) m') s
        (subst (λ mk. Settles o.side o.ticks need filled mk (rest_order o m) m') k t))
