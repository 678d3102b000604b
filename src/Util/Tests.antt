-- ===== src/Util/Tests.antt =====
-- Dates, sets and powers of two on concrete inputs.
use swirly.Base.{ℕ, ◌≡◌, some, List, [], ◌∷◌, ◌++◌, arith, ◌==◌, if◌then◌else◌}
use swirly.Base.Int.{pos, ◌+ℤ◌}
use swirly.Util.Date.{ymd_to_iso, ymd_to_jd, jd_to_iso}
use swirly.Util.Date.Calendar.{IsDate, jd, tomorrow, ymd_to_jd-tomorrow, is_leap, month_length}
use swirly.Util.Date.Inverse.{jd_to_iso-ymd_to_jd}
use swirly.Util.RingBuffer.{RingBuffer, push}
use swirly.Util.RingBuffer.Bounded.{contents, keep_last, push-keep_last}
use swirly.Util.RingBuffer.Bounded
use swirly.Util.Set.{find, insert_or_replace}
use swirly.Util.Set.Order.{Sorted}
use swirly.Util.Set.Find.{find-insert_or_replace}

-- A leap day.
leap_day : IsDate 2000 2 29
unfolding month_length is_leap
leap_day = record { months = (omega arith, omega arith); days = (omega arith, omega arith) }

ymd_to_jd-tomorrow_example : jd (tomorrow (2000, 2, 29)) ≡ jd (2000, 2, 29) +ℤ pos 1
ymd_to_jd-tomorrow_example = ymd_to_jd-tomorrow 2000 2 29 leap_day

jd_to_iso-ymd_to_jd_example :
    jd_to_iso (ymd_to_jd (pos 2000) (pos 2) (pos 29)) ≡ ymd_to_iso (pos 2000) (pos 2) (pos 29)
jd_to_iso-ymd_to_jd_example = jd_to_iso-ymd_to_jd 2000 2 29 (omega arith) leap_day

-- A value with its key.
abbrev key : ℕ × ℕ → ℕ
key x = x.0

abbrev two_values : List (ℕ × ℕ)
two_values = (3, 30) ∷ (5, 50) ∷ []

find-insert_or_replace_example :
    (find key 5 (insert_or_replace key (5, 55) two_values)
      ≡ (if key (5, 55) == 5 then some (5, 55) else find key 5 two_values))
    × Sorted key (insert_or_replace key (5, 55) two_values)
find-insert_or_replace_example = find-insert_or_replace key (5, 55) 5 two_values (omega arith, tt)

-- Two values in a buffer for two.
abbrev full_ring : RingBuffer ℕ
full_ring = record { capacity = 2; rpos = 1; wpos = 3; buf = λ i. if i == 0 then 8 else 7 }

full_ring-IsValid : Bounded.IsValid full_ring
full_ring-IsValid = record { some_room = omega arith; order = omega arith; room = omega arith }

push-keep_last_example :
    (contents (push 9 full_ring) ≡ keep_last 2 (contents full_ring ++ 9 ∷ []))
    × Bounded.IsValid (push 9 full_ring)
push-keep_last_example = push-keep_last 9 full_ring full_ring-IsValid
