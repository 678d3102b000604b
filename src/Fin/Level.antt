-- ===== src/Fin/Level.antt =====
-- swirly/fin/Level.hpp and Level.cpp: a price level and the set of levels, in key order.
use swirly.Base.{ℕ, suc, ◌-◌, Bool, true, false, List, [], ◌∷◌, if◌then◌else◌}
use swirly.Base.Int.{ℤ, ◌+ℤ◌, ◌-ℤ◌, ltb_ℤ, neg}
use swirly.Fin.Types.{Side, is_buy}
use swirly.Fin.Order.{Order}

unfoldable pub compose_key : Side → ℤ → ℤ
compose_key side ticks = if is_buy side then neg ticks else ticks

-- `first_order` is the pointer to the level's first order, which is known by its id.
pub record Level : Type 0 where
  pub first_order : ℕ
  pub key : ℤ
  pub ticks : ℤ
  pub lots : ℤ
  pub count : ℕ

unfoldable pub make : Order → Level
make o = record {
  first_order = o.id;
  key = compose_key o.side o.ticks;
  ticks = o.ticks;
  lots = o.resd_lots;
  count = 1;
}

unfoldable pub set_first_order : ℕ → Level → Level
set_first_order id l = record l { first_order = id }

unfoldable pub reduce : ℤ → Level → Level
reduce delta l = record l { lots = l.lots -ℤ delta }

unfoldable pub add_order : Order → Level → Level
add_order o l = record l { lots = l.lots +ℤ o.resd_lots; count = suc l.count }

unfoldable pub sub_order : Order → Level → Level
sub_order o l = record l { lots = l.lots -ℤ o.resd_lots; count = l.count - 1 }

-- A set of levels is the list of its elements in key order; an iterator splits it in two.
abbrev pub LevelSet : Type 0
LevelSet = List Level

abbrev pub push_before : Level → LevelSet × LevelSet → LevelSet × LevelSet
push_before l (before, from) = (l ∷ before, from)

unfoldable pub lower_bound : ℤ → LevelSet → LevelSet × LevelSet
lower_bound key [] = ([], [])
lower_bound key (l ∷ ls) =
    let rest = lower_bound key ls in if ltb_ℤ l.key key then push_before l rest else ([], l ∷ ls)

abbrev pub found_at : ℤ → LevelSet → Bool
found_at key [] = false
found_at key (l ∷ ls) = if ltb_ℤ key l.key then false else true

-- The iterator to the first level whose key is no less, and whether it is the key's own.
unfoldable pub find_hint : Side → ℤ → LevelSet → (LevelSet × LevelSet) × Bool
find_hint side ticks levels =
    let it = lower_bound (compose_key side ticks) levels in
    (it, found_at (compose_key side ticks) it.1)
