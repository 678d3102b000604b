-- ===== src/Util/Date/Inverse.antt =====
-- `jd_to_iso` finds the date of a Julian day: the century, the year of the century and the month, in
-- years that start in March.
use swirly.Base.{
  ℕ, ◌+◌, ◌-◌, ◌*◌, ◌/◌, ◌%◌, ◌≡◌, ◌≤◌, ◌<◌, ltb, arith, refl, ◌∙◌, sym, ap, inl, inr, Bool-cases,
  true, ltb→lt,
}
use swirly.Base.Int.{pos, ◌-ℤ◌, pos-add, pos-mul, pos-div, int_laws}
use swirly.Util.Date.{ymd_to_iso, ymd_to_jd, jd_to_iso, month_of}
use swirly.Util.Date.Days.{jd_of, shift, ymd_to_jd-jd_of, ymd_to_iso-pos}
use swirly.Util.Date.Calendar.{IsDate, is_leap, month_length}

century :
    (c z r : ℕ) → z ≤ 99 → r ≤ 364 → 4 * (r + 36525 * c + 1461 * z / 4 - 3 * c / 4) / 146097 ≡ c
century c z r hz hr = omega arith

century_leap :
    (c z : ℕ)
    → z ≤ 99
    → z % 4 ≡ 3
    → (z ≡ 99 → c % 4 ≡ 0)
    → 4 * (365 + 36525 * c + 1461 * z / 4 - 3 * c / 4) / 146097 ≡ c
century_leap c z hz h k = ground arith

century_rest :
    (c z r : ℕ)
    → r + 36525 * c + 1461 * z / 4 - 3 * c / 4 ≡ (146097 * c + 3) / 4 + (r + 1461 * z / 4)
century_rest c z r = omega arith

year : (z r : ℕ) → z ≤ 99 → r ≤ 364 → 4000 * (r + 1461 * z / 4 + 1) / 1461001 ≡ z
year z r hz hr = omega arith

year_leap : (z : ℕ) → z ≤ 99 → z % 4 ≡ 3 → 4000 * (365 + 1461 * z / 4 + 1) / 1461001 ≡ z
year_leap z hz h = omega arith

jd_to_iso-month_of :
    (a c z r : ℕ)
    → 4 * (a + 68569) / 146097 ≡ c
    → a + 68569 ≡ (146097 * c + 3) / 4 + (r + 1461 * z / 4)
    → 4000 * (r + 1461 * z / 4 + 1) / 1461001 ≡ z
    → jd_to_iso (pos a) ≡ month_of (pos c) (pos z) (pos (r + 31))
unfolding jd_to_iso
jd_to_iso-month_of a c z r hc hl hz =
    let rest : pos (a + 68569) -ℤ pos ((146097 * c + 3) / 4) ≡ pos (r + 1461 * z / 4) =
      omega int_laws in
    let days : pos (r + 1461 * z / 4) -ℤ pos (1461 * z / 4) ≡ pos r = omega int_laws in
    simp (pos-add, pos-mul, pos-div, hc, rest, hz, days)

-- The numbers of a date: its century, year and month from March on, and its days before the month.
abbrev centuries : ℕ → ℕ → ℕ
centuries y m = (y + 4900 - shift m) / 100

abbrev years : ℕ → ℕ → ℕ
years y m = (y + 4900 - shift m) % 100

abbrev before : ℕ → ℕ
before m = 367 * (m + 12 * shift m - 2) / 12

abbrev day_of_year : ℕ → ℕ → ℕ
day_of_year m d = before m + d - 31

-- The month and the day, from the day of the year.
month_table :
    (y m d : ℕ)
    → IsDate y m d
    → (80 * (before m + d) / 2447 ≡ m + 12 * shift m - 2)
      × (2447 * (m + 12 * shift m - 2) / 80 ≡ before m)
      × ((m + 12 * shift m - 2) / 11 ≡ shift m)
unfolding month_length
month_table y m d v = ground arith

month_of-date :
    (n i j b s d : ℕ)
    → 49 ≤ n
    → 80 * (b + d) / 2447 ≡ j
    → 2447 * j / 80 ≡ b
    → j / 11 ≡ s
    → 12 * s ≤ j + 2
    → month_of (pos n) (pos i) (pos (b + d))
      ≡ pos ((100 * (n - 49) + i + s) * 10000 + (j + 2 - 12 * s) * 100 + d)
unfolding month_of
month_of-date n i j b s d hn hj hb hs le =
    let years : pos n -ℤ pos 49 ≡ pos (n - 49) = omega int_laws in
    let days : pos (b + d) -ℤ pos b ≡ pos d = omega int_laws in
    let months : pos (j + 2) -ℤ pos (12 * s) ≡ pos (j + 2 - 12 * s) = omega int_laws in
    simp (pos-add, pos-mul, pos-div, hj, hb, hs, years, days, months)

early : (m d : ℕ) → 1 ≤ m → m ≤ 12 → 1 ≤ d → 31 ≤ before m + d
early m d lo hi one = ground arith

number :
    (d f y : ℕ)
    → 31 ≤ f + d
    → 4799 ≤ y
    → d + 1461 * y / 4 + f - 3 * ((y + 100) / 100) / 4 - 32075 + 68569
      ≡ f
        + d
        - 31
        + 36525 * ((y + 100) / 100)
        + 1461 * ((y + 100) % 100) / 4
        - 3 * ((y + 100) / 100) / 4
number d f y h lo = omega arith

jd_of-parts :
    (y m d : ℕ)
    → 1 ≤ m
    → m ≤ 12
    → 1 ≤ d
    → jd_of y m d + 68569
      ≡ day_of_year m d + 36525 * centuries y m + 1461 * years y m / 4 - 3 * centuries y m / 4
unfolding jd_of
jd_of-parts y m d lo hi one =
    let e : y + 4900 - shift m ≡ y + 4800 - shift m + 100 = ground arith in
    rw e (number d (before m) (y + 4800 - shift m) (early m d lo hi one) (ground arith))

data DayOf (c z r : ℕ) : Type 0 where
  common : r ≤ 364 → DayOf c z r
  leap : r ≡ 365 → z % 4 ≡ 3 → (z ≡ 99 → c % 4 ≡ 0) → DayOf c z r

-- Only the leap day is the 366th of a year from March on.
last_day :
    (y m d : ℕ) → IsDate y m d → 364 < day_of_year m d → (m ≡ 2) × (d ≡ 29) × (is_leap y ≡ true)
unfolding month_length
last_day y m d v h = ground arith

leap_year :
    (y : ℕ)
    → is_leap y ≡ true
    → ((y + 4900 - 1) % 100 % 4 ≡ 3) × ((y + 4900 - 1) % 100 ≡ 99 → (y + 4900 - 1) / 100 % 4 ≡ 0)
unfolding is_leap
leap_year y h = (ground arith, (λ e. ground arith))

IsDate-DayOf : (y m d : ℕ) → IsDate y m d → DayOf (centuries y m) (years y m) (day_of_year m d)
IsDate-DayOf y m d v = elim (Bool-cases (ltb 364 (day_of_year m d))) [
  | inr small ↦ common (ground arith)
  | inl last ↦
      let (two, end, l) = last_day y m d v (ltb→lt 364 (day_of_year m d) last) in
      let (z, c) = leap_year y l in rw (two, end) (leap refl z c)
]

DayOf-century :
    (c z r : ℕ) → z ≤ 99 → DayOf c z r → 4 * (r + 36525 * c + 1461 * z / 4 - 3 * c / 4) / 146097 ≡ c
DayOf-century c z r hz (common h) = century c z r hz h
DayOf-century c z r hz (leap e h k) = rw e (century_leap c z hz h k)

DayOf-year : (c z r : ℕ) → z ≤ 99 → DayOf c z r → 4000 * (r + 1461 * z / 4 + 1) / 1461001 ≡ z
DayOf-year c z r hz (common h) = year z r hz h
DayOf-year c z r hz (leap e h k) = rw e (year_leap z hz h)

date_of_parts :
    (y m : ℕ)
    → 1 ≤ y
    → 1 ≤ m
    → (49 ≤ centuries y m)
      × (100 * (centuries y m - 49) + years y m + shift m ≡ y)
      × (m + 12 * shift m - 2 + 2 - 12 * shift m ≡ m)
      × (12 * shift m ≤ m + 12 * shift m - 2 + 2)
date_of_parts y m hy hm = ground arith

-- For a date of the Gregorian calendar from the year 1 on, the ISO date of its Julian day is the
-- ISO date that is made of its year, month and day.
pub jd_to_iso-ymd_to_jd :
    (y m d : ℕ)
    → 1 ≤ y
    → IsDate y m d
    → jd_to_iso (ymd_to_jd (pos y) (pos m) (pos d)) ≡ ymd_to_iso (pos y) (pos m) (pos d)
jd_to_iso-ymd_to_jd y m d hy v =
    let c = centuries y m in
    let z = years y m in
    let r = day_of_year m d in
    let small : z ≤ 99 = omega arith in
    let day = IsDate-DayOf y m d v in
    let (lo, hi) = v.months in
    let number = jd_of-parts y m d lo hi v.days.0 in
    let (month, months_days, turn) = month_table y m d v in
    let (from, year_is, month_is, le) = date_of_parts y m hy lo in
    let days : r + 31 ≡ before m + d = omega (arith, early m d lo hi v.days.0) in
    ap jd_to_iso (ymd_to_jd-jd_of y m d lo hi v.days.0)
    ∙ jd_to_iso-month_of (jd_of y m d) c z r (rw number (DayOf-century c z r small day))
        (number ∙ century_rest c z r) (DayOf-year c z r small day)
    ∙ ap (λ l. month_of (pos c) (pos z) (pos l)) days
    ∙ month_of-date c z (m + 12 * shift m - 2) (before m) (shift m) d from month months_days turn le
    ∙ (rw (year_is, month_is) (sym (ymd_to_iso-pos y m d)))
