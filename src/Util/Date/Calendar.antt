-- ===== src/Util/Date/Calendar.antt =====
-- The Gregorian calendar, and that Julian days count its days.
use swirly.Base.{
  ℕ, Bool, not, ◌&&◌, ◌||◌, ◌+◌, ◌-◌, ◌*◌, ◌/◌, ◌%◌, ◌==◌, ◌≡◌, ◌≤◌, ◌<◌, ltb, if◌then◌else◌, arith,
  refl, ◌∙◌, sym, ap, ◌≢◌, inl, inr, Bool-cases,
}
use swirly.Base.Int.{ℤ, pos, ◌+ℤ◌, pos-add}
use swirly.Util.Date.{ymd_to_jd}
use swirly.Util.Date.Days.{jd_of, shift, ymd_to_jd-jd_of}

unfoldable pub is_leap : ℕ → Bool
is_leap y = y % 4 == 0 && (not (y % 100 == 0) || y % 400 == 0)

unfoldable pub month_length : ℕ → ℕ → ℕ
month_length y m =
    if m == 2
    then (if is_leap y then 29 else 28)
    else if m == 4 || m == 6 || m == 9 || m == 11
    then 30
    else 31

pub record IsDate (y m d : ℕ) : Type 0 where
  pub months : (1 ≤ m) × (m ≤ 12)
  pub days : (1 ≤ d) × (d ≤ month_length y m)

abbrev pub Date : Type 0
Date = ℕ × ℕ × ℕ

-- The day after.
unfoldable pub tomorrow : Date → Date
tomorrow (y, m, d) =
    if ltb d (month_length y m)
    then (y, m, d + 1)
    else if ltb m 12
    then (y, m + 1, 1)
    else (y + 1, 1, 1)

abbrev pub jd : Date → ℤ
jd (y, m, d) = ymd_to_jd (pos y) (pos m) (pos d)

abbrev jd_at : Date → ℕ
jd_at (y, m, d) = jd_of y m d

next_day : (y m d : ℕ) → 1 ≤ m → 1 ≤ d → jd_of y m (d + 1) ≡ jd_of y m d + 1
unfolding jd_of
next_day y m d lo one = ground arith

-- February ends by the leap rule,
leap_step : (y : ℕ) → jd_of y 3 1 ≡ jd_of y 2 (if is_leap y then 29 else 28) + 1
unfolding jd_of is_leap
leap_step y = ground arith

-- the other months by their lengths,
same_year :
    (y m n : ℕ)
    → shift (m + 1) ≡ shift m
    → 367 * (m + 1 + 12 * shift m - 2) / 12 + 1 ≡ 367 * (m + 12 * shift m - 2) / 12 + n + 1
    → 1 ≤ m
    → jd_of y (m + 1) 1 ≡ jd_of y m n + 1
unfolding jd_of
same_year y m n s e lo = rw s (omega arith)

lengths :
    (m : ℕ)
    → 1 ≤ m
    → m < 12
    → m ≢ 2
    → (shift (m + 1) ≡ shift m)
      × (367 * (m + 1 + 12 * shift m - 2) / 12 + 1
          ≡ 367 * (m + 12 * shift m - 2) / 12
            + (if m == 4 || m == 6 || m == 9 || m == 11 then 30 else 31)
            + 1)
lengths m lo hi h = ground arith

month_step : (y m : ℕ) → 1 ≤ m → m < 12 → jd_of y (m + 1) 1 ≡ jd_of y m (month_length y m) + 1
unfolding month_length
month_step y m lo hi = elim (Bool-cases (m == 2)) [
  | inl two ↦ let e : m ≡ 2 = ground arith in rw e (leap_step y)
  | inr other ↦
      let h : m ≢ 2 = ground arith in
      let (s, table) = lengths m lo hi h in rw other (same_year y m _ s table lo)
]

-- and December ends the year.
year_step : (y : ℕ) → jd_of (y + 1) 1 1 ≡ jd_of y 12 31 + 1
unfolding jd_of
year_step y = ground arith

december_days : (y : ℕ) → month_length y 12 ≡ 31
unfolding month_length
december_days y = refl

tomorrow-jd_of : (y m d : ℕ) → IsDate y m d → jd_at (tomorrow (y, m, d)) ≡ jd_of y m d + 1
unfolding tomorrow
tomorrow-jd_of y m d v = elim (Bool-cases (ltb d (month_length y m))) [
  | inl within ↦ rw within (next_day y m d v.months.0 v.days.0)
  | inr last ↦
      let e : d ≡ month_length y m = ground arith in
      elim (Bool-cases (ltb m 12)) [
        | inl before ↦ rw (last, before) (rw e (month_step y m v.months.0 (ground arith)))
        | inr december ↦
            let e12 : m ≡ 12 = ground arith in
            rw (last, december)
              (year_step y
                ∙ ap (λ n. jd_of y 12 n + 1)
                    (sym (december_days y) ∙ ap (month_length y) (sym e12) ∙ sym e)
                ∙ ap (λ n. jd_of y n d + 1) (sym e12))
      ]
]

tomorrow-IsDate :
    (y m d : ℕ)
    → IsDate y m d
    → (1 ≤ (tomorrow (y, m, d)).1) × ((tomorrow (y, m, d)).1 ≤ 12) × (1 ≤ (tomorrow (y, m, d)).2)
unfolding tomorrow
tomorrow-IsDate y m d v = ground arith

-- The Julian day of the day after a date of the Gregorian calendar, also over the ends of months,
-- years, leap years and centuries, is one more than that of the date.
pub ymd_to_jd-tomorrow :
    (y m d : ℕ) → IsDate y m d → jd (tomorrow (y, m, d)) ≡ jd (y, m, d) +ℤ pos 1
ymd_to_jd-tomorrow y m d v =
    let (lo, hi, one) = tomorrow-IsDate y m d v in
    let (y', m', d') = tomorrow (y, m, d) in
    ymd_to_jd-jd_of y' m' d' lo hi one
    ∙ ap pos (tomorrow-jd_of y m d v)
    ∙ sym (rw (ymd_to_jd-jd_of y m d v.months.0 v.months.1 v.days.0) (pos-add (jd_of y m d) 1))
