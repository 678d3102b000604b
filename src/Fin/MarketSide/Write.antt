-- ===== src/Fin/MarketSide/Write.antt =====
-- A write of a reduced order to the list, and to its level.
use swirly.Base.{
  ℕ, ◌≡◌, refl, ap, ◌∙◌, inl, inr, true, false, some, List, [], ◌∷◌, ◌==◌, All, arith, Bool-cases,
}
use swirly.Base.Int.{ℤ, ◌-ℤ◌, ◌==ℤ◌, ◌<ℤ◌, +-sub_assoc, sub-add_regroup}
use swirly.Fin.Types.{Side}
use swirly.Fin.Order.{Order}
use swirly.Fin.Level.{Level, LevelSet, compose_key, reduce}
use swirly.Fin.Level
use swirly.Fin.MarketSide.{MarketSide, find, write, update_level}
use swirly.Fin.MarketSide.Book.{
  okey, add_front, levels_of, Ascending, NotIn, Distinct, IsResting, IsValid, FirstGe,
  levels_of-FirstGe, Rising, levels_of-Rising, Sorted-Ascending,
}
use swirly.Fin.MarketSide.Settle.{HasLevel, HasLevel-above, find-HasLevel, find-here}
use swirly.Fin.MarketSide.Remove.{find-later, find-nil, levels_of-cons, Ascending-Sorted}

-- `o'` is `o` with `d` lots fewer left.
pub record IsReduced (d : ℤ) (o o' : Order) : Type 0 where
  pub same_id : o'.id ≡ o.id
  pub same_side : o'.side ≡ o.side
  pub same_ticks : o'.ticks ≡ o.ticks
  pub less_lots : o'.resd_lots ≡ o.resd_lots -ℤ d

IsReduced-okey : (d : ℤ) (o o' : Order) → IsReduced d o o' → okey o' ≡ okey o
IsReduced-okey d o o' r = cc

update_level-add_front :
    (d : ℤ) (o x : Order) (ls : LevelSet)
    → FirstGe (okey x) ls
    → Rising ls
    → HasLevel o ls
    → update_level (okey o) (reduce d) (add_front x ls)
      ≡ add_front x (update_level (okey o) (reduce d) ls)
unfolding update_level reduce Level.make
update_level-add_front d o x [] f r h = absurd h
update_level-add_front d o x (l ∷ ls) f r h = elim (Bool-cases (l.key ==ℤ okey x)) [
  | inl same ↦ ground (arith, +-sub_assoc x.resd_lots l.lots d)
  | inr other ↦
      let up : okey x <ℤ l.key = ground arith in
      let later = HasLevel-above o (okey x) (l ∷ ls) (up, r) h in ground arith
]

update_level-own :
    (d : ℤ) (o o' : Order) (ls : LevelSet)
    → IsReduced d o o'
    → update_level (okey o) (reduce d) (add_front o ls) ≡ add_front o' ls
unfolding update_level reduce Level.make
update_level-own d o o' [] r = ground (arith, IsReduced-okey d o o' r)
update_level-own d o o' (l ∷ ls) r =
    ground (arith, IsReduced-okey d o o' r, sub-add_regroup o.resd_lots l.lots d)

update_level-cons :
    (d : ℤ) (o x : Order) (xs : List Order)
    → update_level (okey o) (reduce d) (levels_of (x ∷ xs))
      ≡ update_level (okey o) (reduce d) (add_front x (levels_of xs))
unfolding levels_of
update_level-cons d o x xs = refl

write-hit : (o x : Order) (xs : List Order) → x.id == o.id ≡ true → write o (x ∷ xs) ≡ o ∷ xs
unfolding write
write-hit o x xs h = rw h

write-miss :
    (o x : Order) (xs : List Order) → x.id == o.id ≡ false → write o (x ∷ xs) ≡ x ∷ write o xs
unfolding write
write-miss o x xs h = rw h

-- A write of a reduced order leaves the levels those of the orders, once its level is reduced.
write-levels_of :
    (d : ℤ) (o o' : Order) (k : ℤ) (xs : List Order)
    → IsReduced d o o'
    → Ascending k xs
    → find o.id xs ≡ some o
    → update_level (okey o) (reduce d) (levels_of xs) ≡ levels_of (write o' xs)
write-levels_of d o o' k [] r a e = absurd (find-nil o e)
write-levels_of d o o' k (x ∷ xs) r a e = elim (Bool-cases (x.id == o.id)) [
  | inl hit ↦
      rw (write-hit o' x xs (ground (arith, r.same_id)), find-here o x xs hit e)
        (update_level-cons d o o xs
          ∙ update_level-own d o o' (levels_of xs) r
          ∙ levels_of-cons o' xs)
  | inr miss ↦
      let there = find-later o x xs miss e in
      rw (write-miss o' x xs (ground (arith, r.same_id))) (
        update_level-cons d o x xs
        ∙ update_level-add_front d o x (levels_of xs) (levels_of-FirstGe (okey x) xs a.1)
            (levels_of-Rising (okey x) xs a.1) (find-HasLevel o xs there)
        ∙ ap (add_front x) (write-levels_of d o o' (okey x) xs r a.1 there)
        ∙ levels_of-cons x (write o' xs))
]

write-Ascending :
    (o o' : Order) (k : ℤ) (xs : List Order)
    → okey o' ≡ okey o
    → o'.id ≡ o.id
    → find o.id xs ≡ some o
    → Ascending k xs
    → Ascending k (write o' xs)
write-Ascending o o' k [] ke ie e a = absurd (find-nil o e)
write-Ascending o o' k (x ∷ xs) ke ie e a = elim (Bool-cases (x.id == o.id)) [
  | inl hit ↦
      let own = find-here o x xs hit e in rw (write-hit o' x xs (ground arith)) (ground arith)
  | inr miss ↦
      rw (write-miss o' x xs (ground arith))
        (a.0, write-Ascending o o' (okey x) xs ke ie (find-later o x xs miss e) a.1)
]

pub write-NotIn : (o' : Order) (id : ℕ) (xs : List Order) → NotIn id xs → NotIn id (write o' xs)
unfolding write
write-NotIn o' id [] f = tt
write-NotIn o' id (x ∷ xs) f = ground (arith, write-NotIn o' id xs f.1)

write-Distinct : (o' : Order) (xs : List Order) → Distinct xs → Distinct (write o' xs)
unfolding write
write-Distinct o' [] d = tt
write-Distinct o' (x ∷ xs) d = elim (Bool-cases (x.id == o'.id)) [
  | inl hit ↦ let same : x.id ≡ o'.id = ground arith in rw hit (ground (arith))
  | inr miss ↦ rw miss (write-NotIn o' x.id xs d.0, write-Distinct o' xs d.1)
]

pub write-All :
    (P : Order → Type 0) (o' : Order) (xs : List Order) → P o' → All P xs → All P (write o' xs)
unfolding write
write-All P o' [] h a = tt
write-All P o' (x ∷ xs) h a = elim (Bool-cases (x.id == o'.id)) [
  | inl hit ↦ rw hit (h, a.1)
  | inr miss ↦ rw miss (a.0, write-All P o' xs h a.1)
]

pub write_absent : (o : Order) (xs : List Order) → NotIn o.id xs → write o xs ≡ xs
unfolding write
write_absent o [] f = refl
write_absent o (x ∷ xs) f = ground (arith, write_absent o xs f.1)

pub find-All :
    (P : Order → Type 0) (o : Order) (xs : List Order) → find o.id xs ≡ some o → All P xs → P o
find-All P o [] e a = absurd (find-nil o e)
find-All P o (x ∷ xs) e a = elim (Bool-cases (x.id == o.id)) [
  | inl hit ↦ rw (← find-here o x xs hit e) a.0
  | inr miss ↦ find-All P o xs (find-later o x xs miss e) a.1
]

-- A side where one order has fewer lots left, in its list and at its level.
pub write-IsValid :
    (side : Side) (s : MarketSide) (d : ℤ) (o o' : Order)
    → IsValid side s
    → find o.id s.orders ≡ some o
    → IsReduced d o o'
    → IsResting side o'
    → IsValid side
        (record { levels = update_level (okey o) (reduce d) s.levels; orders = write o' s.orders })
write-IsValid side s d o o' v e r q =
    let (k, up) = Sorted-Ascending s.orders v.sorted in
    record {
      sorted =
          Ascending-Sorted k _
            (write-Ascending o o' k s.orders (IsReduced-okey d o o' r) r.same_id e up);
      distinct = write-Distinct o' s.orders v.distinct;
      resting = write-All (IsResting side) o' s.orders q v.resting;
      aggregated = rw v.aggregated (write-levels_of d o o' k s.orders r up e);
    }
