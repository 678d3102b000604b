-- ===== src/Util/Date/Days.antt =====
-- `ymd_to_jd` over numbers: its Julian days are not negative.
use swirly.Base.{ℕ, ◌+◌, ◌-◌, ◌*◌, ◌/◌, ◌%◌, ◌≡◌, ◌≤◌, ◌<◌, ltb, if◌then◌else◌, arith, refl, ◌∙◌}
use swirly.Base.Int.{pos, ◌+ℤ◌, ◌-ℤ◌, ◌*ℤ◌, ◌/ℤ◌, int_laws, pos-mul, pos-div, pos-add, pos-mod}
use swirly.Util.Date.{ymd_to_iso, ymd_to_jd, iso_to_jd}

-- January and February count with the year before.
abbrev pub shift : ℕ → ℕ
shift m = if ltb m 3 then 1 else 0

-- The Julian day of a date of numbers.
unfoldable pub jd_of : ℕ → ℕ → ℕ → ℕ
jd_of y m d =
    d
    + 1461 * (y + 4800 - shift m) / 4
    + 367 * (m + 12 * shift m - 2) / 12
    - 3 * ((y + 4900 - shift m) / 100) / 4
    - 32075

before_year : (m : ℕ) → 1 ≤ m → m ≤ 12 → (pos m -ℤ pos 14) /ℤ 12 ≡ pos 0 -ℤ pos (shift m)
unfolding ◌-ℤ◌ ◌/ℤ◌
before_year m lo hi = ground arith

year_part : (y c s : ℕ) → s ≤ y + c → pos y +ℤ pos c +ℤ (pos 0 -ℤ pos s) ≡ pos (y + c - s)
year_part y c s h = omega int_laws

month_part :
    (m s : ℕ) → 2 ≤ m + 12 * s → pos m -ℤ pos 2 -ℤ (pos 0 -ℤ pos s) *ℤ pos 12 ≡ pos (m + 12 * s - 2)
unfolding ◌*ℤ◌ ◌-ℤ◌
month_part m s h = ground arith

total :
    (k x n l : ℕ)
    → 32075 + l ≤ k + x + n
    → pos k -ℤ pos 32075 +ℤ pos x +ℤ pos n -ℤ pos l ≡ pos (k + x + n - l - 32075)
total k x n l h = omega int_laws

parts :
    (y m d : ℕ)
    → 1 ≤ m
    → m ≤ 12
    → 1 ≤ d
    → ymd_to_jd (pos y) (pos m) (pos d)
      ≡ pos d
        -ℤ pos 32075
        +ℤ pos (1461 * (y + 4800 - shift m) / 4)
        +ℤ pos (367 * (m + 12 * shift m - 2) / 12)
        -ℤ pos (3 * ((y + 4900 - shift m) / 100) / 4)
unfolding ymd_to_jd
parts y m d lo hi one =
    rw
      (
        before_year m lo hi,
        year_part y 4800 (shift m) (ground arith),
        year_part y 4900 (shift m) (ground arith),
        month_part m (shift m) (ground arith),
        pos-mul,
        pos-div,
        pos-mul,
        pos-div,
        pos-div,
        pos-mul,
        pos-div,
      )
      refl

pub ymd_to_jd-jd_of :
    (y m d : ℕ) → 1 ≤ m → m ≤ 12 → 1 ≤ d → ymd_to_jd (pos y) (pos m) (pos d) ≡ pos (jd_of y m d)
unfolding jd_of
ymd_to_jd-jd_of y m d lo hi one = parts y m d lo hi one ∙ total d _ _ _ (ground arith)

pub ymd_to_iso-pos :
    (y m d : ℕ) → ymd_to_iso (pos y) (pos m) (pos d) ≡ pos (y * 10000 + m * 100 + d)
unfolding ymd_to_iso
ymd_to_iso-pos y m d = rw (pos-mul, pos-mul, pos-add, pos-add) refl

iso_parts :
    (y m d : ℕ)
    → m < 100
    → d < 100
    → ((y * 10000 + m * 100 + d) / 10000 ≡ y)
      × ((y * 10000 + m * 100 + d) / 100 % 100 ≡ m)
      × ((y * 10000 + m * 100 + d) % 100 ≡ d)
iso_parts y m d hm hd = omega arith

-- For a month and a day below 100, the Julian day of the ISO date that ymd_to_iso makes is that of
-- the year, the month and the day.
pub iso_to_jd-ymd_to_iso :
    (y m d : ℕ)
    → m < 100
    → d < 100
    → iso_to_jd (ymd_to_iso (pos y) (pos m) (pos d)) ≡ ymd_to_jd (pos y) (pos m) (pos d)
unfolding iso_to_jd
iso_to_jd-ymd_to_iso y m d hm hd =
    let (year, mon, mday) = iso_parts y m d hm hd in
    rw (ymd_to_iso-pos y m d, pos-div, pos-div, pos-mod, pos-mod, year, mon, mday) refl
