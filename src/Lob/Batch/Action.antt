-- ===== src/Lob/Batch/Action.antt =====
-- What the loops over several ids need of `revise_order` and `cancel_order` of a market and of what
-- follows each in the session.
use swirly.Base.{ℕ, ◌≡◌, ◌≢◌, refl, sym, ◌∙◌, inl, inr, List, [], ◌∷◌, arith, Bool-cases}
use mathlib.Core.Path.{subst}
use swirly.Base.Int.{ℤ}
use swirly.Fin.Types.{Side}
use swirly.Fin.Order.{Order, done}
use swirly.Fin.MarketSide.{MarketSide, find, write, remove}
use swirly.Fin.MarketSide
use swirly.Fin.MarketSide.Amend.{
  revise_order-Reduces, revise_order-id, cancel_order-IsValid, cancel_order-id,
}
use swirly.Fin.MarketSide.Amend
use swirly.Fin.Market.{Market, find_order, side, with_side, lift}
use swirly.Fin.Market
use swirly.Fin.Market.Valid.{IsValid, Rests}
use swirly.Fin.Market.Amends.{Amends}
use swirly.Fin.Market.Book.{Reduces-Amends}
use swirly.Fin.Market.Book
use swirly.Fin.Exec.{Exec}
use swirly.Lob.Sess.{Sess, OrderKey, find_key, remove_key, push_exec_front, remove_order}
use swirly.Lob.Change.{after_revise, after_cancel}

pub record Action (act : Market → Order → Market × Order) (after : Order → Exec → Sess → Sess)
    : Type 0 where
  pub valid : (m : Market) (o : Order) → IsValid m → Rests m o → IsValid (act m o).0
  pub others :
      (m : Market) (o : Order) (id : ℕ)
      → IsValid m
      → Rests m o
      → o.id ≢ id
      → find_order (act m o).0 id ≡ find_order m id
  pub market_id : (m : Market) (o : Order) → (act m o).0.id ≡ m.id
  pub order_id : (m : Market) (o : Order) → (act m o).1.id ≡ o.id
  pub accnt : (o : Order) (x : Exec) (s : Sess) → (after o x s).accnt ≡ s.accnt
  pub keys :
      (o : Order) (x : Exec) (s : Sess) (market_id id : ℕ)
      → o.id ≢ id
      → find_key market_id id (after o x s).orders ≡ find_key market_id id s.orders

-- An order that leaves a list, or is written in it, leaves the search for another id as it was.
find-remove : (k id : ℕ) (xs : List Order) → k ≢ id → find id (remove k xs) ≡ find id xs
unfolding find remove
find-remove k id [] h = refl
find-remove k id (x ∷ xs) h = ground (arith, find-remove k id xs h)

find-write : (o : Order) (id : ℕ) (xs : List Order) → o.id ≢ id → find id (write o xs) ≡ find id xs
unfolding find write
find-write o id [] h = refl
find-write o id (x ∷ xs) h = ground (arith, find-write o id xs h)

find-Amends :
    (o : Order) (id : ℕ) (xs ys : List Order) → o.id ≢ id → Amends xs o ys → find id ys ≡ find id xs
find-Amends o id xs ys h (inl (o', i, e)) = rw e (find-write o' id xs (λ p. h (sym i ∙ p)))
find-Amends o id xs ys h (inr e) = rw e (find-remove o.id id xs h)

find_order-eq :
    (m n : Market) (id : ℕ)
    → find id n.bid_side.orders ≡ find id m.bid_side.orders
    → find id n.offer_side.orders ≡ find id m.offer_side.orders
    → find_order n id ≡ find_order m id
unfolding find_order
find_order-eq m n id b o = ground arith

find_key-remove_key :
    (market_id k mid id : ℕ) (ks : List OrderKey)
    → k ≢ id
    → find_key mid id (remove_key market_id k ks) ≡ find_key mid id ks
unfolding find_key remove_key
find_key-remove_key market_id k mid id [] h = refl
find_key-remove_key market_id k mid id (x ∷ ks) h =
    ground (arith, find_key-remove_key market_id k mid id ks h)

remove_order-keys :
    (o : Order) (s : Sess) (mid id : ℕ)
    → o.id ≢ id
    → find_key mid id (remove_order o s).orders ≡ find_key mid id s.orders
unfolding remove_order
remove_order-keys o s mid id h = find_key-remove_key o.market_id o.id mid id s.orders h

push_exec_front-orders : (x : Exec) (s : Sess) → (push_exec_front x s).orders ≡ s.orders
unfolding push_exec_front
push_exec_front-orders x s = refl

after_revise-keys :
    (o : Order) (x : Exec) (s : Sess) (mid id : ℕ)
    → o.id ≢ id
    → find_key mid id (after_revise o x s).orders ≡ find_key mid id s.orders
after_revise-keys o x s mid id h =
    rw (push_exec_front-orders x _)
      (elim (Bool-cases (done o)) [ inl d ↦ rw d (remove_order-keys o s mid id h) | inr d ↦ rw d ])

module _ (m : Market) (o : Order) (now id : ℕ) (v : IsValid m) (h : o.id ≢ id) where
  revise_order-others :
      (lots : ℤ) → Rests m o → find_order (Market.revise_order m o lots now).0 id ≡ find_order m id
  unfolding Market.revise_order Market.side Market.with_side
  revise_order-others lots rests = go rests
    where
      at : Side → Market
      at sd = (lift m sd (MarketSide.revise_order (side m sd) o lots now)).0

      go : Rests m o → find_order (at o.side) id ≡ find_order m id
      go (Rests.on_bid s f) =
          let r = revise_order-Reduces Side.buy m.bid_side o lots now v.bids f in
          let a =
            Reduces-Amends Side.buy m.bid_side o _ _ (revise_order-id m.bid_side o lots now) r in
          subst (λ sd. find_order (at sd) id ≡ find_order m id) (sym s)
            (find_order-eq m (at Side.buy) id (find-Amends o id _ _ h a) refl)
      go (Rests.on_offer s f) =
          let r = revise_order-Reduces Side.sell m.offer_side o lots now v.offers f in
          let a =
            Reduces-Amends Side.sell m.offer_side o _ _ (revise_order-id m.offer_side o lots now)
              r in
          subst (λ sd. find_order (at sd) id ≡ find_order m id) (sym s)
            (find_order-eq m (at Side.sell) id refl (find-Amends o id _ _ h a))

  cancel_order-others : Rests m o → find_order (Market.cancel_order m o now).0 id ≡ find_order m id
  unfolding Market.cancel_order Market.side Market.with_side
  cancel_order-others rests = go rests
    where
      at : Side → Market
      at sd = (lift m sd (MarketSide.cancel_order (side m sd) o now)).0

      go : Rests m o → find_order (at o.side) id ≡ find_order m id
      go (Rests.on_bid s f) =
          let r = Amend.cancel_order-IsValid Side.buy m.bid_side o now v.bids f in
          subst (λ sd. find_order (at sd) id ≡ find_order m id) (sym s)
            (find_order-eq m (at Side.buy) id (find-Amends o id _ _ h (inr r.1)) refl)
      go (Rests.on_offer s f) =
          let r = Amend.cancel_order-IsValid Side.sell m.offer_side o now v.offers f in
          subst (λ sd. find_order (at sd) id ≡ find_order m id) (sym s)
            (find_order-eq m (at Side.sell) id refl (find-Amends o id _ _ h (inr r.1)))

with_side-id : (m : Market) (sd : Side) (s : MarketSide) → (with_side m sd s).id ≡ m.id
unfolding with_side
with_side-id m sd s = ground arith

revise_order-market_id :
    (m : Market) (o : Order) (lots : ℤ) (now : ℕ) → (Market.revise_order m o lots now).0.id ≡ m.id
unfolding Market.revise_order
revise_order-market_id m o lots now = with_side-id m o.side _

cancel_order-market_id :
    (m : Market) (o : Order) (now : ℕ) → (Market.cancel_order m o now).0.id ≡ m.id
unfolding Market.cancel_order
cancel_order-market_id m o now = with_side-id m o.side _

revise_order-order_id :
    (m : Market) (o : Order) (lots : ℤ) (now : ℕ) → (Market.revise_order m o lots now).1.id ≡ o.id
unfolding Market.revise_order
revise_order-order_id m o lots now = revise_order-id (side m o.side) o lots now

cancel_order-order_id :
    (m : Market) (o : Order) (now : ℕ) → (Market.cancel_order m o now).1.id ≡ o.id
unfolding Market.cancel_order
cancel_order-order_id m o now = cancel_order-id (side m o.side) o now

after_revise-accnt : (o : Order) (x : Exec) (s : Sess) → (after_revise o x s).accnt ≡ s.accnt
unfolding push_exec_front remove_order
after_revise-accnt o x s = ground arith

after_cancel-accnt : (o : Order) (x : Exec) (s : Sess) → (after_cancel o x s).accnt ≡ s.accnt
unfolding push_exec_front remove_order
after_cancel-accnt o x s = refl

pub revising : (lots : ℤ) (now : ℕ) → Action (λ m o. Market.revise_order m o lots now) after_revise
revising lots now = record {
  valid = λ m o v r. Book.revise_order-IsValid m o lots now v r;
  others = λ m o id v r h. revise_order-others m o now id v h lots r;
  market_id = λ m o. revise_order-market_id m o lots now;
  order_id = λ m o. revise_order-order_id m o lots now;
  accnt = after_revise-accnt;
  keys = after_revise-keys;
}

pub cancelling : (now : ℕ) → Action (λ m o. Market.cancel_order m o now) after_cancel
cancelling now = record {
  valid = λ m o v r. Book.cancel_order-IsValid m o now v r;
  others = λ m o id v r h. cancel_order-others m o now id v h r;
  market_id = λ m o. cancel_order-market_id m o now;
  order_id = λ m o. cancel_order-order_id m o now;
  accnt = after_cancel-accnt;
  keys = λ o x s mid id h.
      rw (push_exec_front-orders x (remove_order o s)) (remove_order-keys o s mid id h);
}
