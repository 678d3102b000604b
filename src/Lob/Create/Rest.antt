-- ===== src/Lob/Create/Rest.antt =====
-- Placing an order in the market, and the undo of it.
use swirly.Base.{
  ℕ, suc, ◌≤◌, ◌≡◌, refl, sym, ◌⊎◌, inl, inr, Bool, true, false, not, some, List, [], ◌∷◌,
  if◌then◌else◌, All, arith,
}
use mathlib.Core.Path.{subst}
use swirly.Fin.Types.{Side, is_buy}
use swirly.Fin.Order.{Order, done}
use swirly.Fin.MarketSide.Book.{NotIn}
use swirly.Fin.MarketSide.Insert.{linked}
use swirly.Fin.Market.{Market, side, find_order, alloc_id}
use swirly.Fin.Market
use swirly.Fin.Market.Valid.{IsValid}
use swirly.Fin.Market.Book.{CanInsert, insert_order-IsValid}
use swirly.Fin.Market.Undo.{remove_order-insert_order}
use swirly.Lob.Engine.{Matching, match_loop, match_one, direct_of}
use swirly.Lob.Create.{rest_order, unrest_order}

pub new_id : (n : ℕ) (xs : List Order) → All (λ o. o.id ≤ n) xs → NotIn (suc n) xs
new_id n [] a = tt
new_id n (x ∷ xs) a = (λ e. absurd (omega (arith, e, a.0)), new_id n xs a.1)

-- The match never gives an id back.
pub match_loop-max_id :
    (m : Market) (accnt : ℕ) (taker : Order) (now : ℕ) (os : List Order) (st : Matching)
    → st.max_id ≤ (match_loop m accnt taker (direct_of taker.side) now os st).max_id
unfolding match_loop match_one
match_loop-max_id m accnt taker now [] st = omega arith
match_loop-max_id m accnt taker now (o ∷ os) st =
    ground (arith, match_loop-max_id m accnt taker now os (match_one m accnt taker now o st))

-- What becomes of an order that has been matched: it is done, or the market can take it.
abbrev pub Placeable : Market → Order → Type 0
Placeable m o = (done o ≡ true) ⊎ ((done o ≡ false) × CanInsert m o)

rest_order-by :
    (b : Bool) (m : Market) (o : Order)
    → done o ≡ b
    → rest_order o m ≡ (if b then m else Market.insert_order m o)
rest_order-by b m o d = rw d

pub rest_order-IsValid :
    (m : Market) (o : Order) → IsValid m → Placeable m o → IsValid (rest_order o m)
rest_order-IsValid m o v (inl d) = subst IsValid (sym (rest_order-by true m o d)) v
rest_order-IsValid m o v (inr (d, c)) =
    subst IsValid (sym (rest_order-by false m o d)) (insert_order-IsValid m o v c)

unrest-removed :
    (m n : Market) (o o' : Order)
    → find_order n o.id ≡ some o'
    → (Market.remove_order n o').0 ≡ m
    → done o ≡ false
    → unrest_order o n ≡ m
unrest-removed m n o o' f r d = rw (d, f) r

-- The undo of `create_order` brings the market back.
pub unrest-rest :
    (m : Market) (o : Order) → IsValid m → Placeable m o → unrest_order o (rest_order o m) ≡ m
unrest-rest m o v (inl d) = rw d
unrest-rest m o v (inr (d, c)) =
    let (found, back) = remove_order-insert_order m o v c in
    subst (λ n. unrest_order o n ≡ m) (sym (rest_order-by false m o d))
      (unrest-removed m (Market.insert_order m o) o (linked o) found back d)

pub side_same : (m : Market) (n : ℕ) (sd : Side) → side (record m { max_id = n }) sd ≡ side m sd
unfolding side
side_same m n sd = refl

-- An order rests on its own side.
pub rest_order-makers :
    (m : Market) (o : Order) (maker : Side)
    → is_buy maker ≡ not (is_buy o.side)
    → side (rest_order o m) maker ≡ side m maker
unfolding side Market.insert_order Market.with_side
rest_order-makers m o maker h = ground (arith, h)
