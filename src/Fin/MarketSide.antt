-- ===== src/Fin/MarketSide.antt =====
-- swirly/fin/MarketSide.hpp, MarketSide.cpp and the `OrderList` of Order.cpp: one side of a book.
pub mod Book
pub mod Hint
pub mod Insert
pub mod Settle
pub mod Remove
pub mod Write
pub mod Amend
pub mod Undo
use swirly.Base.{ℕ, Bool, true, Option, none, some, List, [], ◌∷◌, ◌++◌, ◌==◌, if◌then◌else◌, head?}
use swirly.Base.Int.{ℤ, ◌-ℤ◌, ltb_ℤ, ◌==ℤ◌}
use swirly.Fin.Order.{Order, set_level, create, revise, cancel, trade_last}
use swirly.Fin.Level.{Level, LevelSet, find_hint, add_order, sub_order, set_first_order, reduce}
use swirly.Fin.Level

-- An order stands in the list with its fields: the list's entry is the order's object.
pub record MarketSide : Type 0 where
  pub levels : LevelSet
  pub orders : List Order

unfoldable pub empty : MarketSide
empty = record { levels = []; orders = [] }

-- OrderList::insert_back
unfoldable pub insert_back : Order → List Order → List Order
insert_back o [] = o ∷ []
insert_back o (x ∷ xs) = x ∷ insert_back o xs

-- OrderList::insert_before, at the order that has the id `next`.
unfoldable pub insert_before : Order → ℕ → List Order → List Order
insert_before o next [] = o ∷ []
insert_before o next (x ∷ xs) =
    let rest = insert_before o next xs in if x.id == next then o ∷ x ∷ xs else x ∷ rest

-- OrderList::remove
unfoldable pub remove : ℕ → List Order → List Order
remove id [] = []
remove id (x ∷ xs) = let rest = remove id xs in if x.id == id then xs else x ∷ rest

-- The order's object, by its id.
unfoldable pub find : ℕ → List Order → Option Order
find id [] = none
find id (x ∷ xs) = let rest = find id xs in if x.id == id then some x else rest

-- The id of the order after the one with this id: `*++OrderList::to_iterator(order)`.
unfoldable pub next_order : ℕ → List Order → Option ℕ
next_order id [] = none
next_order id (x ∷ xs) =
    let rest = next_order id xs in
    if x.id == id then elim (head? xs) [ none ↦ none | some y ↦ some y.id ] else rest

-- A write through a pointer to an order of the list.
unfoldable pub write : Order → List Order → List Order
write o [] = []
write o (x ∷ xs) = let rest = write o xs in if x.id == o.id then o ∷ xs else x ∷ rest

-- An iterator at a level: the levels before it, it, and those after it.
pub record Cursor : Type 0 where
  pub before : LevelSet
  pub level : Level
  pub after : LevelSet

abbrev pub cursor_levels : Cursor → LevelSet
cursor_levels c = c.before ++ c.level ∷ c.after

abbrev place_level : Order → LevelSet → LevelSet → Bool → Cursor
place_level o before (l ∷ after) true = record {
  before = before;
  level = add_order o l;
  after = after;
}
place_level o before from _ = record { before = before; level = Level.make o; after = from }

-- The level of the order, found and raised or emplaced at the hint.
unfoldable pub insert_level : LevelSet → Order → Cursor
insert_level levels o =
    let hint = find_hint o.side o.ticks levels in place_level o hint.0.0 hint.0.1 hint.1

unfoldable pub insert_order : MarketSide → Order → MarketSide
insert_order s o =
    let c = insert_level s.levels o in
    let o' = set_level (some c.level.key) o in
    record {
      levels = cursor_levels c;
      orders = elim c.after [
        | [] ↦ insert_back o' s.orders
        | next ∷ _ ↦ insert_before o' next.first_order s.orders
      ];
    }

-- A write through the pointer to the level with this key.
unfoldable pub update_level : ℤ → (Level → Level) → LevelSet → LevelSet
update_level key f [] = []
update_level key f (l ∷ ls) =
    let rest = update_level key f ls in if l.key ==ℤ key then f l ∷ ls else l ∷ rest

-- After `sub_order`: an empty level goes, and a level that lost its first order has the next one.
abbrev pub settle_level : ℕ → Option ℕ → Level → LevelSet → LevelSet
settle_level id next l ls =
    if l.count == 0
    then ls
    else if l.first_order == id
    then elim next [ none ↦ l ∷ ls | some n ↦ set_first_order n l ∷ ls ]
    else l ∷ ls

unfoldable pub remove_from_level : ℤ → Order → Option ℕ → LevelSet → LevelSet
remove_from_level key o next [] = []
remove_from_level key o next (l ∷ ls) =
    let rest = remove_from_level key o next ls in
    if l.key ==ℤ key then settle_level o.id next (sub_order o l) ls else l ∷ rest

-- remove_order(Level&, const Order&)
unfoldable pub remove_at : MarketSide → ℤ → Order → MarketSide × Order
remove_at s key o = (
  record {
    levels = remove_from_level key o (next_order o.id s.orders) s.levels;
    orders = remove o.id s.orders;
  },
  set_level none o,
)

unfoldable pub reduce_level : MarketSide → ℤ → Order → ℤ → MarketSide × Order
reduce_level s key o delta =
    if ltb_ℤ delta o.resd_lots
    then (record s { levels = update_level key (reduce delta) s.levels }, o)
    else remove_at s key o

-- remove_order(const Order&)
unfoldable pub remove_order : MarketSide → Order → MarketSide × Order
remove_order s o = elim o.level [ none ↦ (s, o) | some key ↦ remove_at s key o ]

unfoldable pub create_order : MarketSide → Order → ℕ → MarketSide
create_order s o now = insert_order s (create now o)

-- The order's object is written in the list too, if it is still there.
abbrev pub commit : MarketSide × Order → (Order → Order) → MarketSide × Order
commit (s, o) f = (record s { orders = write (f o) s.orders }, f o)

unfoldable pub revise_order : MarketSide → Order → ℤ → ℕ → MarketSide × Order
revise_order s o lots now =
    commit (elim o.level [ none ↦ (s, o) | some key ↦ reduce_level s key o (o.lots -ℤ lots) ])
      (revise lots now)

unfoldable pub cancel_order : MarketSide → Order → ℕ → MarketSide × Order
cancel_order s o now =
    commit (elim o.level [ none ↦ (s, o) | some key ↦ remove_at s key o ]) (cancel now)

unfoldable pub take_order : MarketSide → Order → ℤ → ℕ → MarketSide × Order
take_order s o lots now =
    commit (elim o.level [ none ↦ (s, o) | some key ↦ reduce_level s key o lots ])
      (trade_last lots o.ticks now)
