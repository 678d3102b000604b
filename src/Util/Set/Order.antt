-- ===== src/Util/Set/Order.antt =====
-- The elements of a set rise strictly by their keys, whatever is done to it.
use swirly.Base.{
  ℕ, ◌<◌, ◌≤◌, ◌≡◌, refl, inl, inr, true, false, Bool, List, [], ◌∷◌, ◌==◌, ltb, if◌then◌else◌,
  arith, Bool-cases,
}
use swirly.Util.Set.{lower_bound, find_hint, insert_hint, insert, insert_or_replace, remove}

module _ {ℓ} {A : Type ℓ} (key : A → ℕ) where
  abbrev pub Above : ℕ → List A → Type 0
  Above k [] = Unit {0}
  Above k (x ∷ xs) = (k < key x) × Above (key x) xs

  abbrev pub Sorted : List A → Type 0
  Sorted [] = Unit {0}
  Sorted (x ∷ xs) = Above (key x) xs

  pub Above-weaken : (j k : ℕ) (xs : List A) → j ≤ k → Above k xs → Above j xs
  Above-weaken j k [] h a = tt
  Above-weaken j k (x ∷ xs) h a = (omega arith, a.1)

  -- Insertion and replacement in one pass.
  unfoldable pub upsert : Bool → A → List A → List A
  upsert replace v [] = v ∷ []
  upsert replace v (x ∷ xs) =
      let rest = upsert replace v xs in
      if ltb (key x) (key v)
      then x ∷ rest
      else if ltb (key v) (key x)
      then v ∷ x ∷ xs
      else if replace
      then v ∷ xs
      else x ∷ xs

  pub insert-upsert : (v : A) (xs : List A) → insert key v xs ≡ upsert false v xs
  unfolding insert find_hint insert_hint lower_bound upsert
  insert-upsert v [] = refl
  insert-upsert v (x ∷ xs) = elim (Bool-cases (ltb (key x) (key v))) [
    | inl less ↦ ground (arith, insert-upsert v xs)
    | inr ge ↦ ground arith
  ]

  pub insert_or_replace-upsert :
      (v : A) (xs : List A) → insert_or_replace key v xs ≡ upsert true v xs
  unfolding insert_or_replace find_hint insert_hint lower_bound upsert
  insert_or_replace-upsert v [] = refl
  insert_or_replace-upsert v (x ∷ xs) = elim (Bool-cases (ltb (key x) (key v))) [
    | inl less ↦ ground (arith, insert_or_replace-upsert v xs)
    | inr ge ↦ ground arith
  ]

  upsert-Above :
      (replace : Bool) (v : A) (k : ℕ) (xs : List A)
      → k < key v
      → Above k xs
      → Above k (upsert replace v xs)
  unfolding upsert
  upsert-Above replace v k [] h a = (h, tt)
  upsert-Above replace v k (x ∷ xs) h a = elim (Bool-cases (ltb (key x) (key v))) [
    | inl less ↦ rw less (a.0, upsert-Above replace v (key x) xs (ground arith) a.1)
    | inr ge ↦ elim (Bool-cases (ltb (key v) (key x))) [
      | inl more ↦ rw (ge, more) (h, (ground arith, a.1))
      | inr same ↦
          rw (ge, same) (choose replace (h, Above-weaken (key v) (key x) xs (ground arith) a.1) a)
    ]
  ]
    where
      choose :
          (b : Bool) → Above k (v ∷ xs) → Above k (x ∷ xs) → Above k (if b then v ∷ xs else x ∷ xs)
      choose true p q = p
      choose false p q = q

  pub Sorted-Above : (xs : List A) (k : ℕ) → Above k xs → Sorted xs
  Sorted-Above [] k a = tt
  Sorted-Above (x ∷ xs) k a = a.1

  -- An insertion with or without replacement keeps the order.
  pub upsert-Sorted :
      (replace : Bool) (v : A) (xs : List A) → Sorted xs → Sorted (upsert replace v xs)
  unfolding upsert
  upsert-Sorted replace v [] a = tt
  upsert-Sorted replace v (x ∷ xs) a = elim (Bool-cases (ltb (key x) (key v))) [
    | inl less ↦ rw less (upsert-Above replace v (key x) xs (ground arith) a)
    | inr ge ↦ elim (Bool-cases (ltb (key v) (key x))) [
      | inl more ↦ rw (ge, more) (ground arith, a)
      | inr same ↦
          rw (ge, same) (choose replace (Above-weaken (key v) (key x) xs (ground arith) a) a)
    ]
  ]
    where
      choose :
          (b : Bool) → Above (key v) xs → Above (key x) xs → Sorted (if b then v ∷ xs else x ∷ xs)
      choose true p q = p
      choose false p q = q

  pub remove-Above : (id k : ℕ) (xs : List A) → Above k xs → Above k (remove key id xs)
  unfolding remove
  remove-Above id k [] a = tt
  remove-Above id k (x ∷ xs) a = elim (Bool-cases (key x == id)) [
    | inl hit ↦
        rw hit (Above-weaken k (key x) _ (omega (arith, a.0)) (remove-Above id (key x) xs a.1))
    | inr miss ↦ rw miss (a.0, remove-Above id (key x) xs a.1)
  ]

  pub remove-Sorted : (id : ℕ) (xs : List A) → Sorted xs → Sorted (remove key id xs)
  unfolding remove
  remove-Sorted id [] a = tt
  remove-Sorted id (x ∷ xs) a = elim (Bool-cases (key x == id)) [
    | inl hit ↦ rw hit (Sorted-Above _ (key x) (remove-Above id (key x) xs a))
    | inr miss ↦ rw miss (remove-Above id (key x) xs a)
  ]
