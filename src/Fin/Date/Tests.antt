-- ===== src/Fin/Date/Tests.antt =====
-- The cache of business days, and the ids of markets, on concrete inputs.
use swirly.Base.{ℕ, ◌+◌, ◌/◌, ◌%◌, ◌<◌, ◌≢◌, ◌≡◌, ◌↔◌, List, [], ◌∷◌, map, arith}
use swirly.Fin.Date.{business_days, fresh, business_days-local_day}
use swirly.Fin.MarketId.{to_market_id, to_market_id_iff}

-- The days of a time zone without an offset.
abbrev utc : ℕ → ℕ
utc t = 2440588 + t / 86400

-- Two times of one entry, the first of which comes back.
abbrev times : List ℕ
times = 86400 ∷ 172800 ∷ 86401 ∷ 86400 ∷ []

after_zero : (n : ℕ) → 0 < n → n ≢ 0
after_zero n h e = omega (arith, h, e)

business_days-local_day_example : business_days utc fresh times ≡ map utc times
business_days-local_day_example =
    let day = after_zero 86400 (omega arith) in
    business_days-local_day utc times
      (day, (after_zero 172800 (omega arith), (after_zero 86401 (omega arith), (day, tt))))

to_market_id_iff_example :
    (to_market_id 1 2457000 ≡ to_market_id 65537 2457000)
    ↔ ((1 % 65536 ≡ 65537 % 65536) × (2457000 % 65536 ≡ 2457000 % 65536))
to_market_id_iff_example = to_market_id_iff 1 65537 2457000 2457000
