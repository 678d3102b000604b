-- ===== src/App/MemQueue/Slots.antt =====
-- Positions that share an element are a whole number of capacities apart.
use swirly.Base.{ℕ, ◌+◌, ◌%◌, ◌<◌, ◌≤◌, ◌≡◌, ◌≢◌, arith}

-- Within less than one capacity an element is of one position.
pub same_slot : (c p q : ℕ) → 0 < c → p ≤ q → q < p + c → p % c ≡ q % c → p ≡ q
same_slot c p q hc le lt h = grind arith

pub next_slot : (c p : ℕ) → 2 ≤ c → p % c ≢ (p + 1) % c
next_slot c p hc h = absurd (grind (arith, same_slot c p (p + 1)))

pub slot_again : (c p : ℕ) → 0 < c → (p + c) % c ≡ p % c
slot_again c p hc = grind arith

-- Two positions less than one capacity apart are of different elements.
pub apart : (c p q : ℕ) → 0 < c → p ≢ q → p < q + c → q < p + c → p % c ≢ q % c
apart c p q hc ne lo hi h = absurd (grind (arith, same_slot c p q, same_slot c q p))
