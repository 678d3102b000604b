-- ===== src/Fin/MarketSide/Hint.antt =====
-- The search for the level of an order and the list of orders agree on where it goes.
use swirly.Base.{
  ℕ, ◌≡◌, ◌≢◌, refl, ap, ◌∙◌, inl, inr, true, false, Option, none, some, List, [], ◌∷◌,
  if◌then◌else◌, arith, Bool-cases,
}
use swirly.Base.Int.{ℤ, ltb_ℤ, ◌≤ℤ◌, ◌<ℤ◌, +ℤ_assoc}
use swirly.Fin.Order.{Order}
use swirly.Fin.Level.{Level, LevelSet, compose_key, lower_bound, find_hint, add_order, push_before}
use swirly.Fin.Level
use swirly.Fin.MarketSide.{cursor_levels, insert_level, insert_back, insert_before}
use swirly.Fin.MarketSide.Book.{
  okey, add_front, levels_of, place, Ascending, NotIn, Distinct, FirstGe, levels_of-FirstGe, Rising,
  RisingFrom,
}

-- `insert_level` as one recursion over the levels.
unfoldable pub ins : Order → LevelSet → LevelSet
ins o [] = Level.make o ∷ []
ins o (l ∷ ls) =
    let rest = ins o ls in
    if ltb_ℤ l.key (okey o)
    then l ∷ rest
    else if ltb_ℤ (okey o) l.key
    then Level.make o ∷ l ∷ ls
    else add_order o l ∷ ls

-- The first order of the first level of a worse price.
pub worse_first : ℤ → LevelSet → Option ℕ
worse_first k [] = none
worse_first k (l ∷ ls) =
    let rest = worse_first k ls in if ltb_ℤ k l.key then some l.first_order else rest

unfoldable pub first_of_head : LevelSet → Option ℕ
first_of_head [] = none
first_of_head (l ∷ ls) = some l.first_order

pub insert_level-cons :
    (l : Level) (ls : LevelSet) (o : Order)
    → ltb_ℤ l.key (okey o) ≡ true
    → insert_level (l ∷ ls) o
      ≡ record (insert_level ls o) { before = l ∷ (insert_level ls o).before }
unfolding insert_level find_hint lower_bound
insert_level-cons l ls o h = ground arith

insert_level-stop :
    (l : Level) (ls : LevelSet) (o : Order)
    → ltb_ℤ l.key (okey o) ≡ false
    → cursor_levels (insert_level (l ∷ ls) o) ≡ ins o (l ∷ ls)
unfolding insert_level find_hint lower_bound ins
insert_level-stop l ls o h = ground arith

insert_level-nil : (o : Order) → cursor_levels (insert_level [] o) ≡ ins o []
unfolding insert_level find_hint lower_bound ins
insert_level-nil o = refl

pub insert_level-ins : (ls : LevelSet) (o : Order) → cursor_levels (insert_level ls o) ≡ ins o ls
unfolding ins
insert_level-ins [] o = insert_level-nil o
insert_level-ins (l ∷ ls) o = elim (Bool-cases (ltb_ℤ l.key (okey o))) [
  | inl h ↦ ground (arith, insert_level-cons l ls o h, insert_level-ins ls o)
  | inr h ↦ ground (arith, insert_level-stop l ls o h)
]

insert_level-nil_after : (o : Order) → first_of_head (insert_level [] o).after ≡ none
unfolding insert_level find_hint lower_bound first_of_head
insert_level-nil_after o = refl

insert_level-stop_after :
    (l : Level) (ls : LevelSet) (o : Order)
    → Rising (l ∷ ls)
    → ltb_ℤ l.key (okey o) ≡ false
    → first_of_head (insert_level (l ∷ ls) o).after ≡ worse_first (okey o) (l ∷ ls)
unfolding insert_level find_hint lower_bound worse_first first_of_head
insert_level-stop_after l [] o r h = ground arith
insert_level-stop_after l (m ∷ ls) o r h = ground arith

RisingFrom-Rising : (k : ℤ) (ls : LevelSet) → RisingFrom k ls → Rising ls
RisingFrom-Rising k [] r = tt
RisingFrom-Rising k (l ∷ ls) r = r.1

pub insert_level-after :
    (ls : LevelSet) (o : Order)
    → Rising ls
    → first_of_head (insert_level ls o).after ≡ worse_first (okey o) ls
unfolding worse_first first_of_head
insert_level-after [] o r = insert_level-nil_after o
insert_level-after (l ∷ ls) o r = elim (Bool-cases (ltb_ℤ l.key (okey o))) [
  | inl h ↦
      ground
        (arith, insert_level-cons l ls o h, insert_level-after ls o (RisingFrom-Rising l.key ls r))
  | inr h ↦ insert_level-stop_after l ls o r h
]

ins-add_front :
    (o x : Order) (ls : LevelSet)
    → okey x ≤ℤ okey o
    → FirstGe (okey x) ls
    → ins o (add_front x ls) ≡ add_front x (ins o ls)
unfolding ins Level.make add_order
ins-add_front o x [] h f = ground (arith)
ins-add_front o x (l ∷ ls) h f = ground (arith, +ℤ_assoc x.resd_lots l.lots o.resd_lots)

ins-before :
    (o x : Order) (ls : LevelSet)
    → okey o <ℤ okey x
    → ins o (add_front x ls) ≡ add_front o (add_front x ls)
unfolding ins Level.make
ins-before o x [] h = ground arith
ins-before o x (l ∷ ls) h = ground arith

ins-nil : (o : Order) → ins o [] ≡ Level.make o ∷ []
unfolding ins
ins-nil o = refl

-- The levels after an insertion are those of the orders with the new one in its place.
pub ins-levels_of :
    (o : Order) (k : ℤ) (xs : List Order)
    → Ascending k xs
    → ins o (levels_of xs) ≡ levels_of (place o xs)
unfolding levels_of place
ins-levels_of o k [] a = ins-nil o
ins-levels_of o k (x ∷ xs) a = elim (Bool-cases (ltb_ℤ (okey o) (okey x))) [
  | inl h ↦ rw h (ins-before o x (levels_of xs) (ground arith))
  | inr h ↦ rw h (
      ins-add_front o x (levels_of xs) (ground arith) (levels_of-FirstGe (okey x) xs a.1)
      ∙ ap (add_front x) (ins-levels_of o (okey x) xs a.1))
]

-- The first order of a worse price.
pub worse_order : ℤ → List Order → Option ℕ
worse_order k [] = none
worse_order k (x ∷ xs) = let rest = worse_order k xs in if ltb_ℤ k (okey x) then some x.id else rest

worse_first-add_front :
    (k : ℤ) (x : Order) (ls : LevelSet)
    → worse_first k (add_front x ls) ≡ (if ltb_ℤ k (okey x) then some x.id else worse_first k ls)
unfolding worse_first Level.make
worse_first-add_front k x [] = ground arith
worse_first-add_front k x (l ∷ ls) = ground arith

worse_first-nil : (k : ℤ) → worse_first k [] ≡ none
unfolding worse_first
worse_first-nil k = refl

pub worse_first-levels_of :
    (k : ℤ) (xs : List Order) → worse_first k (levels_of xs) ≡ worse_order k xs
unfolding levels_of worse_order
worse_first-levels_of k [] = worse_first-nil k
worse_first-levels_of k (x ∷ xs) =
    ground (arith, worse_first-add_front k x (levels_of xs), worse_first-levels_of k xs)

-- `insert_before` or `insert_back`, by the next level's first order.
unfoldable pub insert_next : Order → Option ℕ → List Order → List Order
insert_next o none xs = insert_back o xs
insert_next o (some next) xs = insert_before o next xs

insert_next-cons :
    (o x : Order) (next : Option ℕ) (xs : List Order)
    → next ≢ some x.id
    → insert_next o next (x ∷ xs) ≡ x ∷ insert_next o next xs
unfolding insert_next insert_back insert_before
insert_next-cons o x none xs h = refl
insert_next-cons o x (some n) xs h = ground arith

worse_order-NotIn : (id : ℕ) (k : ℤ) (xs : List Order) → NotIn id xs → worse_order k xs ≢ some id
unfolding worse_order
worse_order-NotIn id k [] f = λ e. cc
worse_order-NotIn id k (x ∷ xs) f = ground (arith, worse_order-NotIn id k xs f.1)

insert_next-nil : (o : Order) → insert_next o none [] ≡ o ∷ []
unfolding insert_next insert_back
insert_next-nil o = refl

insert_next-here : (o x : Order) (xs : List Order) → insert_next o (some x.id) (x ∷ xs) ≡ o ∷ x ∷ xs
unfolding insert_next insert_before
insert_next-here o x xs = ground arith

pub insert_next-place :
    (o : Order) (xs : List Order)
    → Distinct xs
    → insert_next o (worse_order (okey o) xs) xs ≡ place o xs
unfolding place worse_order
insert_next-place o [] d = insert_next-nil o
insert_next-place o (x ∷ xs) d = elim (Bool-cases (ltb_ℤ (okey o) (okey x))) [
  | inl h ↦ rw h (insert_next-here o x xs)
  | inr h ↦ rw h (
      insert_next-cons o x (worse_order (okey o) xs) xs (worse_order-NotIn x.id (okey o) xs d.0)
      ∙ ap (◌∷◌ x) (insert_next-place o xs d.1))
]
