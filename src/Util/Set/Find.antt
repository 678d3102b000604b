-- ===== src/Util/Set/Find.antt =====
-- What is found in a set after each operation.
use swirly.Base.{
  ℕ, ◌≤◌, ◌≡◌, ◌∙◌, ap, refl, sym, inl, inr, true, false, Bool, Option, none, some, List, [], ◌∷◌,
  ◌==◌, ltb, if◌then◌else◌, not, arith, Bool-cases,
}
use swirly.Util.Set.{lower_bound, find_hint, find, insert, insert_or_replace, remove}
use swirly.Util.Set.Order.{
  Above, Sorted, Sorted-Above, upsert-Sorted, remove-Sorted, upsert, insert-upsert,
  insert_or_replace-upsert,
}

-- What an option holds, or else `v`.
abbrev pub found_or {ℓ} : {A : Type ℓ} → A → Option A → A
found_or v none = v
found_or v (some x) = x

module _ {ℓ} {A : Type ℓ} (key : A → ℕ) where
  -- The search in one pass, through the whole list.
  unfoldable pub search_all : ℕ → List A → Option A
  search_all id [] = none
  search_all id (x ∷ xs) = let rest = search_all id xs in if key x == id then some x else rest

  absent : (id k : ℕ) (xs : List A) → id ≤ k → Above key k xs → search_all id xs ≡ none
  unfolding search_all
  absent id k [] h a = refl
  absent id k (x ∷ xs) h a = ground (arith, absent id (key x) xs)

  find-nil : (id : ℕ) → find key id [] ≡ none
  unfolding find find_hint lower_bound
  find-nil id = refl

  find-cons :
      (id : ℕ) (x : A) (xs : List A)
      → find key id (x ∷ xs)
        ≡ (if ltb (key x) id then find key id xs else if not (ltb id (key x)) then some x else none)
  unfolding find find_hint lower_bound
  find-cons id x xs = elim (Bool-cases (ltb (key x) id)) [
    | inl less ↦ rw less refl
    | inr ge ↦ rw ge refl
  ]

  -- In a set the search by the order finds what is there.
  pub find-search_all : (id : ℕ) (xs : List A) → Sorted key xs → find key id xs ≡ search_all id xs
  unfolding search_all
  find-search_all id [] s = find-nil id
  find-search_all id (x ∷ xs) s =
      find-cons id x xs
      ∙ ground (arith, find-search_all id xs (Sorted-Above key xs (key x) s), absent id (key x) xs)

  search_all-upsert :
      (replace : Bool) (v : A) (id : ℕ) (xs : List A)
      → Sorted key xs
      → search_all id (upsert key replace v xs) ≡ (
          if key v == id
          then some (if replace then v else found_or v (search_all id xs))
          else search_all id xs)
  unfolding search_all upsert
  search_all-upsert true v id [] s = ground arith
  search_all-upsert false v id [] s = ground arith
  search_all-upsert true v id (x ∷ xs) s =
      ground (arith, search_all-upsert true v id xs (Sorted-Above key xs (key x) s))
  search_all-upsert false v id (x ∷ xs) s =
      ground (
        arith,
        search_all-upsert false v id xs (Sorted-Above key xs (key x) s),
        absent id (key x) xs,
      )

  search_all-remove :
      (k id : ℕ) (xs : List A)
      → search_all id (remove key k xs) ≡ (if k == id then none else search_all id xs)
  unfolding search_all remove
  search_all-remove k id [] = ground arith
  search_all-remove k id (x ∷ xs) = ground (arith, search_all-remove k id xs)

  -- In a set with its keys rising, insert_or_replace makes the value the one that is found under
  -- its key, and leaves what is found under every other key; the keys rise as before.
  pub find-insert_or_replace :
      (v : A) (id : ℕ) (xs : List A)
      → Sorted key xs
      → (find key id (insert_or_replace key v xs)
          ≡ (if key v == id then some v else find key id xs))
        × Sorted key (insert_or_replace key v xs)
  find-insert_or_replace v id xs s =
      let sorted = upsert-Sorted key true v xs s in
      rw (insert_or_replace-upsert key v xs) (
        find-search_all id (upsert key true v xs) sorted
            ∙ search_all-upsert true v id xs s
            ∙ ap (λ o. if key v == id then some v else o) (sym (find-search_all id xs s)),
        sorted,
      )

  -- In a set with its keys rising, insert keeps the element that has the key of the value, and else
  -- makes the value the one that is found; it leaves what is found under every other key.
  pub find-insert :
      (v : A) (id : ℕ) (xs : List A)
      → Sorted key xs
      → (find key id (insert key v xs)
          ≡ (if key v == id then some (found_or v (find key id xs)) else find key id xs))
        × Sorted key (insert key v xs)
  find-insert v id xs s =
      let sorted = upsert-Sorted key false v xs s in
      rw (insert-upsert key v xs) (
        find-search_all id (upsert key false v xs) sorted
            ∙ search_all-upsert false v id xs s
            ∙ ap (λ o. if key v == id then some (found_or v o) else o)
                (sym (find-search_all id xs s)),
        sorted,
      )

  -- In a set with its keys rising, remove leaves nothing under the key, and what is found under
  -- every other key; the keys rise as before.
  pub find-remove :
      (k id : ℕ) (xs : List A)
      → Sorted key xs
      → (find key id (remove key k xs) ≡ (if k == id then none else find key id xs))
        × Sorted key (remove key k xs)
  find-remove k id xs s =
      let sorted = remove-Sorted key k xs s in
      (
        find-search_all id (remove key k xs) sorted
            ∙ search_all-remove k id xs
            ∙ ap (λ o. if k == id then none else o) (sym (find-search_all id xs s)),
        sorted,
      )
