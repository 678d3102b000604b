-- ===== src/Util/Set.antt =====
-- swirly/util/Set.hpp: the sets of the code, which are ordered by a key. A set is the list of its
-- elements in order, and an iterator splits it into what is before it and what is from it on.
pub mod Order
pub mod Find
use swirly.Base.{
  ℕ, Bool, true, false, not, Option, none, some, List, [], ◌∷◌, ◌++◌, ◌==◌, ltb, if◌then◌else◌,
}

module _ {ℓ} {A : Type ℓ} (key : A → ℕ) where
  -- `set_.lower_bound(id, comp)`: the first element whose key is not less.
  unfoldable pub lower_bound : ℕ → List A → List A × List A
  lower_bound id [] = ([], [])
  lower_bound id (x ∷ xs) =
      let (before, from) = lower_bound id xs in
      if ltb (key x) id then (x ∷ before, from) else ([], x ∷ xs)

  -- `it != set_.end() && !comp(id, *it)`
  abbrev pub at_key : ℕ → List A → Bool
  at_key id [] = false
  at_key id (x ∷ xs) = not (ltb id (key x))

  unfoldable pub find_hint : ℕ → List A → (List A × List A) × Bool
  find_hint id xs = let c = lower_bound id xs in (c, at_key id c.1)

  abbrev pub deref : List A → Option A
  deref [] = none
  deref (x ∷ xs) = some x

  -- `set_.find(id, comp)`
  unfoldable pub find : ℕ → List A → Option A
  find id xs = let (c, found) = find_hint id xs in if found then deref c.1 else none

  -- At the hint that `find_hint` gave.
  unfoldable pub insert_hint : List A × List A → A → List A
  insert_hint (before, from) v = before ++ v ∷ from

  unfoldable pub insert : A → List A → List A
  insert v xs = let (c, found) = find_hint (key v) xs in if found then xs else insert_hint c v

  -- `replace_node` at the iterator.
  abbrev pub replace_node : List A × List A → A → List A
  replace_node (before, []) v = before
  replace_node (before, x ∷ from) v = before ++ v ∷ from

  unfoldable pub insert_or_replace : A → List A → List A
  insert_or_replace v xs =
      let (c, found) = find_hint (key v) xs in if found then replace_node c v else insert_hint c v

  -- The elements of the key of a value are erased.
  unfoldable pub remove : ℕ → List A → List A
  remove id [] = []
  remove id (x ∷ xs) = let rest = remove id xs in if key x == id then rest else x ∷ rest
