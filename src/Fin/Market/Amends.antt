-- ===== src/Fin/Market/Amends.antt =====
-- What a change of one order does to the orders of a market.
use swirly.Base.{ℕ, ◌≡◌, sym, ◌⊎◌, inl, inr, some, List, [], ◌∷◌, All, arith}
use swirly.Fin.Types.{Side}
use swirly.Fin.Order.{Order}
use swirly.Fin.MarketSide.{find, write, remove}
use swirly.Fin.MarketSide.Book.{NotIn, Distinct, IsResting, place, okey}
use swirly.Fin.MarketSide.Book
use swirly.Fin.MarketSide.Insert.{linked, linked-id, place-NotIn}
use swirly.Fin.MarketSide.Write.{find-All, write-All, write-NotIn}
use swirly.Fin.MarketSide.Remove.{remove-All, remove-NotIn}
use swirly.Fin.Market.{Market, side}
use swirly.Fin.Market.Valid.{Allocated, IsValid}

All-mono :
    (P Q : Order → Type 0) (xs : List Order) → ((o : Order) → P o → Q o) → All P xs → All Q xs
All-mono P Q [] f a = tt
All-mono P Q (x ∷ xs) f a = (f x a.0, All-mono P Q xs f a.1)

pub NotIn-each_place :
    (o : Order) (xs ys : List Order)
    → All (λ y. NotIn y.id xs) ys
    → NotIn o.id ys
    → All (λ y. NotIn y.id (place (linked o) xs)) ys
NotIn-each_place o xs [] a f = tt
NotIn-each_place o xs (y ∷ ys) a f = (
  place-NotIn (linked o) y.id xs (rw (linked-id o) (λ e. f.0 (sym e))) a.0,
  NotIn-each_place o xs ys a.1 f.1,
)

-- What a reduction of one order of a side leaves of the side's orders.
abbrev pub Amends : List Order → Order → List Order → Type 0
Amends xs o ys = ((o' : Order) × (o'.id ≡ o.id) × (ys ≡ write o' xs)) ⊎ (ys ≡ remove o.id xs)

Amends-All :
    (P : Order → Type 0) (o : Order) (xs ys : List Order)
    → ((x : Order) → x.id ≡ o.id → P x)
    → Amends xs o ys
    → All P xs
    → All P ys
Amends-All P o xs ys h (inl (o', i, e)) a = rw e (write-All P o' xs (h o' i) a)
Amends-All P o xs ys h (inr e) a = rw e (remove-All P o.id xs a)

Amends-keeps :
    (P : Order → Type 0) (o : Order) (xs ys : List Order)
    → ((x y : Order) → x.id ≡ y.id → P y → P x)
    → find o.id xs ≡ some o
    → Amends xs o ys
    → All P xs
    → All P ys
Amends-keeps P o xs ys h f c a = Amends-All P o xs ys (λ x i. h x o i (find-All P o xs f a)) c a

Amends-NotIn :
    (id : ℕ) (o : Order) (xs ys : List Order) → Amends xs o ys → NotIn id xs → NotIn id ys
Amends-NotIn id o xs ys (inl (o', i, e)) f = rw e (write-NotIn o' id xs f)
Amends-NotIn id o xs ys (inr e) f = rw e (remove-NotIn o.id id xs f)

-- A market in which one side has been amended, the rest of its book being the same.
pub amend_bids :
    (m n : Market) (o : Order)
    → IsValid m
    → find o.id m.bid_side.orders ≡ some o
    → Book.IsValid Side.buy n.bid_side
    → Amends m.bid_side.orders o n.bid_side.orders
    → n.offer_side ≡ m.offer_side
    → n.max_id ≡ m.max_id
    → IsValid n
amend_bids m n o v f side c same ids = record {
  bids = side;
  offers = rw same v.offers;
  bid_ids = rw ids (
      Amends-keeps (Allocated m) o m.bid_side.orders n.bid_side.orders (λ x y i h. ground arith) f c
        v.bid_ids);
  offer_ids = rw (same, ids) v.offer_ids;
  apart = rw same (
      Amends-keeps (λ x. NotIn x.id m.offer_side.orders) o m.bid_side.orders n.bid_side.orders
        (λ x y i h. rw i h) f c v.apart);
}

pub amend_offers :
    (m n : Market) (o : Order)
    → IsValid m
    → find o.id m.offer_side.orders ≡ some o
    → Book.IsValid Side.sell n.offer_side
    → Amends m.offer_side.orders o n.offer_side.orders
    → n.bid_side ≡ m.bid_side
    → n.max_id ≡ m.max_id
    → IsValid n
amend_offers m n o v f side c same ids = record {
  bids = rw same v.bids;
  offers = side;
  bid_ids = rw (same, ids) v.bid_ids;
  offer_ids = rw ids (
      Amends-keeps (Allocated m) o m.offer_side.orders n.offer_side.orders (λ x y i h. ground arith)
        f c v.offer_ids);
  apart = rw same (
      All-mono _ _ m.bid_side.orders
        (λ x h. Amends-NotIn x.id o m.offer_side.orders n.offer_side.orders c h) v.apart);
}
