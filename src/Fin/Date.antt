-- ===== src/Fin/Date.antt =====
-- swirly/fin/Date.cpp: the business day of a time, with its cache of two entries.
pub mod Tests
use swirly.Base.{
  ℕ, ◌%◌, ◌<◌, ◌≡◌, ◌≢◌, refl, ap, ◌∙◌, ◌⊎◌, inl, inr, ◌==◌, List, [], ◌∷◌, map, All, if◌then◌else◌,
  arith, Bool-cases,
}

-- A time in seconds and its business day.
pub record Entry : Type 0 where
  pub first : ℕ
  pub second : ℕ

-- `cache_`, by even and odd times.
pub record BusinessDay : Type 0 where
  pub even : Entry
  pub odd : Entry

-- `cache_[2]{}`
unfoldable pub fresh : BusinessDay
fresh = record { even = record { first = 0; second = 0 }; odd = record { first = 0; second = 0 } }

unfoldable pub entry_at : BusinessDay → ℕ → Entry
entry_at c t = if t % 2 == 0 then c.even else c.odd

unfoldable pub set_entry : BusinessDay → ℕ → Entry → BusinessDay
set_entry c t e = if t % 2 == 0 then record c { even = e } else record c { odd = e }

-- The time zone's local day of a time, which the library of dates gives.
module _ (local_day : ℕ → ℕ) where
  -- BusinessDay::operator()
  unfoldable pub business_day : BusinessDay → ℕ → ℕ × BusinessDay
  business_day c t =
      let e = entry_at c t in
      if e.first == t
      then (e.second, c)
      else let jd = local_day t in (jd, set_entry c t (record { first = t; second = jd }))

  -- The days of a run of calls.
  unfoldable pub business_days : BusinessDay → List ℕ → List ℕ
  business_days c [] = []
  business_days c (t ∷ ts) = let (jd, c') = business_day c t in jd ∷ business_days c' ts

  abbrev Right : Entry → Type 0
  Right e = e.first ≢ 0 → e.second ≡ local_day e.first

  -- The entries of a cache that has been used are right, but for the time 0 of an empty entry.
  record IsValid (c : BusinessDay) : Type 0 where
    even : Right c.even
    odd : Right c.odd

  fresh-IsValid : IsValid fresh
  unfolding fresh
  fresh-IsValid = record { even = λ h. absurd (h refl); odd = λ h. absurd (h refl) }

  entry_at-Right : (c : BusinessDay) (t : ℕ) → IsValid c → Right (entry_at c t)
  unfolding entry_at
  entry_at-Right c t v = elim (Bool-cases (t % 2 == 0)) [ inl e ↦ rw e v.even | inr o ↦ rw o v.odd ]

  set_entry-IsValid :
      (c : BusinessDay) (t : ℕ) (e : Entry) → IsValid c → Right e → IsValid (set_entry c t e)
  unfolding set_entry
  set_entry-IsValid c t e v r = elim (Bool-cases (t % 2 == 0)) [
    | inl h ↦ rw h (record { even = r; odd = v.odd })
    | inr h ↦ rw h (record { even = v.even; odd = r })
  ]

  business_day-right :
      (c : BusinessDay) (t : ℕ)
      → IsValid c
      → t ≢ 0
      → ((business_day c t).0 ≡ local_day t) × IsValid (business_day c t).1
  unfolding business_day
  business_day-right c t v h = elim (Bool-cases ((entry_at c t).first == t)) [
    | inl hit ↦
        let e : (entry_at c t).first ≡ t = ground arith in
        rw hit (entry_at-Right c t v (rw e h) ∙ ap local_day e, v)
    | inr miss ↦ rw miss (refl, set_entry-IsValid c t _ v (λ _. refl))
  ]

  run :
      (c : BusinessDay) (ts : List ℕ)
      → IsValid c
      → All (λ t. t ≢ 0) ts
      → business_days c ts ≡ map local_day ts
  unfolding business_days
  run c [] v h = refl
  run c (t ∷ ts) v h =
      let (day, v') = business_day-right c t v h.0 in
      ap (λ d. d ∷ business_days (business_day c t).1 ts) day
      ∙ ap (λ l. local_day t ∷ l) (run (business_day c t).1 ts v' h.1)

  -- Over any run of calls of a new functor at times other than 0 the days are those that the time
  -- zone gives, in whatever order times come back: the cache is not seen.
  pub business_days-local_day :
      (ts : List ℕ) → All (λ t. t ≢ 0) ts → business_days fresh ts ≡ map local_day ts
  business_days-local_day ts h = run fresh ts fresh-IsValid h

  -- At the time 0 a new functor gives the day 0, whatever the time zone says.
  pub business_day-zero : (business_day fresh 0).0 ≡ 0
  unfolding business_day fresh entry_at
  business_day-zero = refl
