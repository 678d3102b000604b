-- ===== src/Fin/MarketSide/Book.antt =====
-- What one side of a book means: its orders in priority order, and the levels that they make up.
use swirly.Base.{
  ℕ, suc, ◌<◌, ◌≡◌, ◌≢◌, refl, inl, inr, some, List, [], ◌∷◌, if◌then◌else◌, All, arith, Bool-cases,
}
use swirly.Base.Int.{ℤ, pos, ◌+ℤ◌, ltb_ℤ, ◌==ℤ◌, ◌≤ℤ◌, ◌<ℤ◌, eq_of_parts, neg_inj}
use swirly.Fin.Types.{Side}
use swirly.Fin.Order.{Order}
use swirly.Fin.Level.{Level, LevelSet, compose_key}
use swirly.Fin.Level
use swirly.Fin.MarketSide.{MarketSide}

-- The priority of an order: the key of its level, lower first.
abbrev pub okey : Order → ℤ
okey o = compose_key o.side o.ticks

abbrev pub add_front : Order → LevelSet → LevelSet
add_front o [] = Level.make o ∷ []
add_front o (l ∷ ls) =
    if l.key ==ℤ okey o
    then record l {
      first_order = o.id;
      ticks = o.ticks;
      lots = o.resd_lots +ℤ l.lots;
      count = suc l.count;
    }
      ∷ ls
    else Level.make o ∷ l ∷ ls

-- The levels that orders in priority order make up.
unfoldable pub levels_of : List Order → LevelSet
levels_of [] = []
levels_of (x ∷ xs) = add_front x (levels_of xs)

-- Behind every order of the same or a better price, before every order of a worse one.
unfoldable pub place : Order → List Order → List Order
place o [] = o ∷ []
place o (x ∷ xs) = let rest = place o xs in if ltb_ℤ (okey o) (okey x) then o ∷ x ∷ xs else x ∷ rest

abbrev pub Ascending : ℤ → List Order → Type 0
Ascending k [] = Unit {0}
Ascending k (x ∷ xs) = (k ≤ℤ okey x) × Ascending (okey x) xs

abbrev pub Sorted : List Order → Type 0
Sorted [] = Unit {0}
Sorted (x ∷ xs) = Ascending (okey x) xs

abbrev pub NotIn : ℕ → List Order → Type 0
NotIn id [] = Unit {0}
NotIn id (x ∷ xs) = (x.id ≢ id) × NotIn id xs

abbrev pub Distinct : List Order → Type 0
Distinct [] = Unit {0}
Distinct (x ∷ xs) = NotIn x.id xs × Distinct xs

-- An order that rests on this side: some of it is left, and what is left and what is executed
-- make up its lots.
pub record IsResting (side : Side) (o : Order) : Type 0 where
  pub on_side : o.side ≡ side
  pub at_level : o.level ≡ some (okey o)
  pub open_lots : pos 0 <ℤ o.resd_lots
  pub filled_lots : pos 0 ≤ℤ o.exec_lots
  pub total_lots : o.resd_lots +ℤ o.exec_lots ≡ o.lots

pub record IsValid (side : Side) (s : MarketSide) : Type 0 where
  pub sorted : Sorted s.orders
  pub distinct : Distinct s.orders
  pub resting : All (IsResting side) s.orders
  pub aggregated : s.levels ≡ levels_of s.orders

abbrev pub FirstGe : ℤ → LevelSet → Type 0
FirstGe k [] = Unit {0}
FirstGe k (l ∷ ls) = k ≤ℤ l.key

pub add_front-FirstGe :
    (k : ℤ) (x : Order) (ls : LevelSet) → k ≤ℤ okey x → FirstGe k (add_front x ls)
unfolding Level.make
add_front-FirstGe k x [] h = h
add_front-FirstGe k x (l ∷ ls) h = ground arith

pub levels_of-FirstGe : (k : ℤ) (xs : List Order) → Ascending k xs → FirstGe k (levels_of xs)
unfolding levels_of
levels_of-FirstGe k [] a = tt
levels_of-FirstGe k (x ∷ xs) a = add_front-FirstGe k x (levels_of xs) a.0

pub Ascending-weaken : (j k : ℤ) (xs : List Order) → j ≤ℤ k → Ascending k xs → Ascending j xs
Ascending-weaken j k [] h a = tt
Ascending-weaken j k (x ∷ xs) h a = (omega arith, a.1)

-- Keys rise strictly along a set of levels.
abbrev pub RisingFrom : ℤ → LevelSet → Type 0
RisingFrom k [] = Unit {0}
RisingFrom k (l ∷ ls) = (k <ℤ l.key) × RisingFrom l.key ls

abbrev pub Rising : LevelSet → Type 0
Rising [] = Unit {0}
Rising (l ∷ ls) = RisingFrom l.key ls

add_front-Rising :
    (x : Order) (ls : LevelSet) → FirstGe (okey x) ls → Rising ls → Rising (add_front x ls)
unfolding Level.make
add_front-Rising x [] f r = tt
add_front-Rising x (l ∷ ls) f r = ground arith

pub levels_of-Rising : (k : ℤ) (xs : List Order) → Ascending k xs → Rising (levels_of xs)
unfolding levels_of
levels_of-Rising k [] a = tt
levels_of-Rising k (x ∷ xs) a =
    add_front-Rising x (levels_of xs) (levels_of-FirstGe (okey x) xs a.1)
      (levels_of-Rising (okey x) xs a.1)

pub Sorted-Ascending : (xs : List Order) → Sorted xs → (k : ℤ) × Ascending k xs
Sorted-Ascending [] s = (pos 0, tt)
Sorted-Ascending (x ∷ xs) s = (okey x, (omega arith, s))

-- The first level of a set that orders make up is that of the first of them.
pub add_front-head :
    (x : Order) (ls : LevelSet)
    → (l : Level) × (rest : LevelSet) × (add_front x ls ≡ l ∷ rest)
      × (l.key ≡ okey x)
      × (l.ticks ≡ x.ticks)
      × (l.first_order ≡ x.id)
      × (0 < l.count)
unfolding Level.make
add_front-head x [] = (Level.make x, [], refl, refl, refl, refl, omega arith)
add_front-head x (l ∷ ls) = elim (Bool-cases (l.key ==ℤ okey x)) [
  | inl same ↦ (
    record l {
      first_order = x.id;
      ticks = x.ticks;
      lots = x.resd_lots +ℤ l.lots;
      count = suc l.count;
    },
    ls,
    rw same,
    ground (arith, eq_of_parts l.key (okey x)),
    refl,
    refl,
    omega arith,
  )
  | inr other ↦ (Level.make x, l ∷ ls, rw other, refl, refl, refl, omega arith)
]

-- On one side a key stands for one price.
pub ticks_of_key : (x y : Order) → x.side ≡ y.side → okey x ≡ okey y → x.ticks ≡ y.ticks
unfolding compose_key
ticks_of_key x y s k = ground (arith, neg_inj x.ticks y.ticks)
