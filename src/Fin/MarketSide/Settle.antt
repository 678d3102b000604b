-- ===== src/Fin/MarketSide/Settle.antt =====
-- What the removal of an order does to the levels that orders make up.
use swirly.Base.{
  ℕ, ◌<◌, ◌≡◌, ◌≢◌, refl, sym, ap, ◌∙◌, ◌⊎◌, inl, inr, true, Option, some, List, [], ◌∷◌, ◌==◌, All,
  arith, Bool-cases,
}
use swirly.Base.Int.{ℤ, ◌==ℤ◌, ◌≤ℤ◌, ◌<ℤ◌, eq_of_parts, +-sub_cancel, +-sub_assoc, +ℤ_comm}
use swirly.Fin.Types.{Side}
use swirly.Fin.Order.{Order}
use swirly.Fin.Level.{Level, LevelSet, compose_key, sub_order, set_first_order}
use swirly.Fin.Level
use swirly.Fin.MarketSide.{find, next_order, remove_from_level}
use swirly.Fin.MarketSide.Book.{
  okey, add_front, levels_of, Ascending, IsResting, FirstGe, Rising, RisingFrom, add_front-head,
  ticks_of_key,
}

-- The level of the order, with its lots known where it is the only one there.
abbrev pub HasLevel : Order → LevelSet → Type 0
HasLevel o [] = ⊥
HasLevel o (l ∷ ls) =
    ((l.key ≡ okey o) × (0 < l.count) × (l.count ≡ 1 → l.lots ≡ o.resd_lots)) ⊎ HasLevel o ls

pub HasLevel-above :
    (o : Order) (k : ℤ) (ls : LevelSet) → RisingFrom k ls → HasLevel o ls → k <ℤ okey o
HasLevel-above o k [] r h = absurd h
HasLevel-above o k (l ∷ ls) r (inl h) = ground (arith, h.0)
HasLevel-above o k (l ∷ ls) r (inr h) = let above = HasLevel-above o l.key ls r.1 h in omega arith

abbrev FirstCounts : LevelSet → Type 0
FirstCounts [] = Unit {0}
FirstCounts (l ∷ ls) = 0 < l.count

add_front-FirstCounts : (x : Order) (ls : LevelSet) → FirstCounts (add_front x ls)
unfolding Level.make
add_front-FirstCounts x [] = omega arith
add_front-FirstCounts x (l ∷ ls) = ground arith

levels_of-FirstCounts : (xs : List Order) → FirstCounts (levels_of xs)
unfolding levels_of
levels_of-FirstCounts [] = tt
levels_of-FirstCounts (x ∷ xs) = add_front-FirstCounts x (levels_of xs)

HasLevel-self : (o : Order) (ls : LevelSet) → FirstCounts ls → HasLevel o (add_front o ls)
unfolding Level.make
HasLevel-self o [] f = inl (refl, omega arith, λ _. refl)
HasLevel-self o (l ∷ ls) f = elim (Bool-cases (l.key ==ℤ okey o)) [
  | inl same ↦
      rw same
        (inl (eq_of_parts l.key (okey o) (ground arith), omega arith, λ one. absurd (omega arith)))
  | inr other ↦ rw other (inl (refl, omega arith, λ _. refl))
]

HasLevel-add_front : (o x : Order) (ls : LevelSet) → HasLevel o ls → HasLevel o (add_front x ls)
unfolding Level.make
HasLevel-add_front o x [] h = absurd h
HasLevel-add_front o x (l ∷ ls) h = elim (Bool-cases (l.key ==ℤ okey x)) [
  | inl same ↦ rw same (elim h [
    | inl own ↦ inl (own.0, omega arith, λ one. absurd (omega arith))
    | inr later ↦ inr later
  ])
  | inr other ↦ rw other (inr h)
]

pub find-here :
    (o x : Order) (xs : List Order) → x.id == o.id ≡ true → find o.id (x ∷ xs) ≡ some o → x ≡ o
unfolding find
find-here o x xs hit e = ground arith

pub find-HasLevel :
    (o : Order) (xs : List Order) → find o.id xs ≡ some o → HasLevel o (levels_of xs)
unfolding find levels_of
find-HasLevel o [] e = absurd (cc)
find-HasLevel o (x ∷ xs) e = elim (Bool-cases (x.id == o.id)) [
  | inl hit ↦
      rw (find-here o x xs hit e) (HasLevel-self o (levels_of xs) (levels_of-FirstCounts xs))
  | inr miss ↦ HasLevel-add_front o x (levels_of xs) (find-HasLevel o xs (ground arith))
]

RisingFrom-weaken : (j k : ℤ) (ls : LevelSet) → j ≤ℤ k → RisingFrom k ls → RisingFrom j ls
RisingFrom-weaken j k [] h r = tt
RisingFrom-weaken j k (l ∷ ls) h r = (omega arith, r.1)

remove_from_level-RisingFrom :
    (k key : ℤ) (o : Order) (next : Option ℕ) (ls : LevelSet)
    → RisingFrom k ls
    → RisingFrom k (remove_from_level key o next ls)
unfolding remove_from_level sub_order set_first_order
remove_from_level-RisingFrom k key o next [] r = tt
remove_from_level-RisingFrom k key o next (l ∷ ls) r = elim (Bool-cases (l.key ==ℤ key)) [
  | inl own ↦ rw own (ground (arith, RisingFrom-weaken k l.key ls))
  | inr other ↦ rw other (r.0, remove_from_level-RisingFrom l.key key o next ls r.1)
]

add_front-new :
    (x : Order) (ls : LevelSet) → RisingFrom (okey x) ls → add_front x ls ≡ Level.make x ∷ ls
add_front-new x [] r = refl
add_front-new x (l ∷ ls) r = ground arith

remove_from_level-skip :
    (o : Order) (next : Option ℕ) (l : Level) (ls : LevelSet)
    → l.key <ℤ okey o
    → remove_from_level (okey o) o next (l ∷ ls) ≡ l ∷ remove_from_level (okey o) o next ls
unfolding remove_from_level
remove_from_level-skip o next l ls h = ground arith

-- Taking out an order that stands later leaves what an earlier order adds, at a new level,
remove-add_front_new :
    (x o : Order) (next : Option ℕ) (ls : LevelSet)
    → okey x <ℤ okey o
    → RisingFrom (okey x) ls
    → remove_from_level (okey o) o next (add_front x ls)
      ≡ add_front x (remove_from_level (okey o) o next ls)
unfolding Level.make
remove-add_front_new x o next ls lt r =
    ap (remove_from_level (okey o) o next) (add_front-new x ls r)
    ∙ remove_from_level-skip o next (Level.make x) ls lt
    ∙ sym (add_front-new x _ (remove_from_level-RisingFrom (okey x) (okey o) o next ls r))

-- at the order's own level,
remove-add_front_own :
    (x o : Order) (next : Option ℕ) (l : Level) (ls : LevelSet)
    → x.id ≢ o.id
    → okey x ≡ l.key
    → RisingFrom l.key ls
    → l.key ≡ okey o
    → 0 < l.count
    → (l.count ≡ 1 → l.lots ≡ o.resd_lots)
    → remove_from_level (okey o) o next (add_front x (l ∷ ls))
      ≡ add_front x (remove_from_level (okey o) o next (l ∷ ls))
unfolding remove_from_level Level.make sub_order set_first_order
remove-add_front_own x o next l ls ne xl r lo c one = ground (
  arith,
  add_front-new x ls,
  +-sub_assoc x.resd_lots l.lots o.resd_lots,
  +-sub_cancel o.resd_lots x.resd_lots,
  +ℤ_comm x.resd_lots o.resd_lots,
)

-- and at a level before the order's.
remove-add_front_same :
    (x o : Order) (next : Option ℕ) (l : Level) (ls : LevelSet)
    → okey x ≡ l.key
    → l.key <ℤ okey o
    → remove_from_level (okey o) o next (add_front x (l ∷ ls))
      ≡ add_front x (remove_from_level (okey o) o next (l ∷ ls))
unfolding remove_from_level Level.make
remove-add_front_same x o next l ls xl lo = ground arith

pub remove-add_front :
    (x o : Order) (next : Option ℕ) (ls : LevelSet)
    → x.id ≢ o.id
    → okey x ≤ℤ okey o
    → FirstGe (okey x) ls
    → Rising ls
    → HasLevel o ls
    → remove_from_level (okey o) o next (add_front x ls)
      ≡ add_front x (remove_from_level (okey o) o next ls)
remove-add_front x o next [] ne le f r h = absurd h
remove-add_front x o next (l ∷ ls) ne le f r h = elim (Bool-cases (okey x ==ℤ l.key)) [
  | inl same ↦
      let xl = eq_of_parts (okey x) l.key (ground arith) in
      elim h [
        | inl own ↦ remove-add_front_own x o next l ls ne xl r own.0 own.1 own.2
        | inr later ↦ remove-add_front_same x o next l ls xl (HasLevel-above o l.key ls r later)
      ]
  | inr other ↦
      let up : okey x <ℤ l.key = ground arith in
      remove-add_front_new x o next (l ∷ ls) (HasLevel-above o (okey x) (l ∷ ls) (up, r) h) (up, r)
]

pub find-okey :
    (o : Order) (k : ℤ) (xs : List Order) → Ascending k xs → find o.id xs ≡ some o → k ≤ℤ okey o
unfolding find
find-okey o k [] a e = absurd (cc)
find-okey o k (x ∷ xs) a e = elim (Bool-cases (x.id == o.id)) [
  | inl hit ↦ rw (← find-here o x xs hit e) a.0
  | inr miss ↦
      let above : okey x ≤ℤ okey o = find-okey o (okey x) xs a.1 (ground arith) in omega arith
]

-- The first order of all leaves its level to the next, or takes it along.
pub remove-levels_of_first :
    (side : Side) (x : Order) (xs : List Order)
    → All (IsResting side) (x ∷ xs)
    → remove_from_level (okey x) x (next_order x.id (x ∷ xs)) (levels_of (x ∷ xs)) ≡ levels_of xs
unfolding levels_of next_order remove_from_level Level.make sub_order set_first_order
remove-levels_of_first side x [] r = ground arith
remove-levels_of_first side x (y ∷ ys) r =
    let (l, ls, shape, key, ticks, first, count) = add_front-head y (levels_of ys) in
    rw shape (
      ground (
        arith,
        ticks_of_key x y (r.0.on_side ∙ sym r.1.0.on_side),
        +-sub_cancel x.resd_lots l.lots,
        eq_of_parts l.key (okey x),
      ))
