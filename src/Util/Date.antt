-- ===== src/Util/Date.antt =====
-- swirly/util/Date.hpp: calendar dates, ISO dates and Julian days. The `int` that a date is made of
-- is an integer here.
pub mod Days
pub mod Calendar
pub mod Inverse
use swirly.Base.{Bool, not, if◌then◌else◌}
use swirly.Base.Int.{ℤ, pos, ◌+ℤ◌, ◌-ℤ◌, ◌*ℤ◌, ◌/ℤ◌, ◌%ℤ◌, ◌==ℤ◌, ltb_ℤ}

unfoldable pub ymd_to_iso : ℤ → ℤ → ℤ → ℤ
ymd_to_iso year mon mday = year *ℤ pos 10000 +ℤ mon *ℤ pos 100 +ℤ mday

unfoldable pub ymd_to_jd : ℤ → ℤ → ℤ → ℤ
ymd_to_jd i j k =
    k
    -ℤ pos 32075
    +ℤ pos 1461 *ℤ (i +ℤ pos 4800 +ℤ (j -ℤ pos 14) /ℤ 12) /ℤ 4
    +ℤ pos 367 *ℤ (j -ℤ pos 2 -ℤ (j -ℤ pos 14) /ℤ 12 *ℤ pos 12) /ℤ 12
    -ℤ pos 3 *ℤ ((i +ℤ pos 4900 +ℤ (j -ℤ pos 14) /ℤ 12) /ℤ 100) /ℤ 4

unfoldable pub iso_to_jd : ℤ → ℤ
iso_to_jd n = ymd_to_jd (n /ℤ 10000) (n /ℤ 100 %ℤ 100) (n %ℤ 100)

-- The last lines of `jd_to_iso`, from `l = l - 1461 * i / 4 + 31` on.
unfoldable pub month_of : ℤ → ℤ → ℤ → ℤ
month_of n i l =
    let j = pos 80 *ℤ l /ℤ 2447 in
    let k = l -ℤ pos 2447 *ℤ j /ℤ 80 in
    let l' = j /ℤ 11 in
    let j' = j +ℤ pos 2 -ℤ pos 12 *ℤ l' in
    let i' = pos 100 *ℤ (n -ℤ pos 49) +ℤ i +ℤ l' in i' *ℤ pos 10000 +ℤ j' *ℤ pos 100 +ℤ k

unfoldable pub jd_to_iso : ℤ → ℤ
jd_to_iso jd =
    let l = jd +ℤ pos 68569 in
    let n = pos 4 *ℤ l /ℤ 146097 in
    let l' = l -ℤ (pos 146097 *ℤ n +ℤ pos 3) /ℤ 4 in
    let i = pos 4000 *ℤ (l' +ℤ pos 1) /ℤ 1461001 in
    month_of n i (l' -ℤ pos 1461 *ℤ i /ℤ 4 +ℤ pos 31)

unfoldable pub jd_to_mjd : ℤ → ℤ
jd_to_mjd jd = jd -ℤ pos 2400000

unfoldable pub mjd_to_jd : ℤ → ℤ
mjd_to_jd mjd = mjd +ℤ pos 2400000

unfoldable pub jd_to_tjd : ℤ → ℤ
jd_to_tjd jd = jd -ℤ pos 2440000

unfoldable pub tjd_to_jd : ℤ → ℤ
tjd_to_jd tjd = tjd +ℤ pos 2440000

-- In milliseconds.
unfoldable pub jd_to_time : ℤ → ℤ
jd_to_time jd = (jd -ℤ pos 2440588) *ℤ pos 86400000 +ℤ pos 43200000

unfoldable pub maybe_jd_to_iso : ℤ → ℤ
maybe_jd_to_iso jd = if not (jd ==ℤ pos 0) then jd_to_iso jd else pos 0

unfoldable pub maybe_iso_to_jd : ℤ → ℤ
maybe_iso_to_jd iso = if not (iso ==ℤ pos 0) then iso_to_jd iso else pos 0

unfoldable pub is_week_day : ℤ → Bool
is_week_day jd = ltb_ℤ (jd %ℤ 7) (pos 5)

unfoldable pub is_week_end_day : ℤ → Bool
is_week_end_day jd = not (is_week_day jd)
