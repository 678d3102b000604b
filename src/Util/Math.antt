-- ===== src/Util/Math.antt =====
-- swirly/util/Math.hpp: powers of two, and division that rounds up.
use swirly.Base.{
  ℕ, zero, suc, ◌+◌, ◌-◌, ◌*◌, ◌/◌, ◌%◌, ◌^◌, ◌<◌, ◌≤◌, ◌≡◌, refl, inl, inr, true, ◌==◌, ltb, leb,
  if◌then◌else◌, arith, Bool-cases,
}

-- The bits that a number takes, of at most `fuel`: `fuel - __builtin_clzl(n)` for a number that is
-- not zero.
unfoldable pub width : ℕ → ℕ → ℕ
width zero n = 0
width (suc fuel) n = let more = suc (width fuel (n / 2)) in if n == 0 then 0 else more

-- `1 << k` of an `int`, converted to 64 bits; a shift by more than 31 places is undefined, 0 here.
unfoldable pub shift_one : ℕ → ℕ
shift_one k = if ltb k 31 then 2 ^ k else if k == 31 then 18446744071562067968 else 0

-- `next_pow2(unsigned long)`
unfoldable pub next_pow2 : ℕ → ℕ
next_pow2 n = if leb n 1 then 1 else shift_one (width 64 (n - 1))

-- `ceil(dividend, divisor)` of 64-bit numbers.
unfoldable pub ceil : ℕ → ℕ → ℕ
ceil dividend divisor = (dividend + (2 ^ 64 - 1)) % 2 ^ 64 / divisor + 1

-- `ceil_pow2<BitsN>`
unfoldable pub ceil_pow2 : ℕ → ℕ → ℕ
ceil_pow2 bits size = (size + (2 ^ bits - 1)) % 2 ^ 64 / 2 ^ bits * 2 ^ bits

half : (fuel n : ℕ) → n < 2 ^ suc fuel → n / 2 < 2 ^ fuel
half fuel n h = omega arith

width-zero : (fuel : ℕ) → width fuel 0 ≡ 0
unfolding width
width-zero zero = refl
width-zero (suc fuel) = refl

width_step : (fuel n : ℕ) → 0 < n → width (suc fuel) n ≡ suc (width fuel (n / 2))
unfolding width
width_step fuel n h = ground arith

-- The number is below the power of its bits, half of which is not above it.
width_upper : (fuel n : ℕ) → n < 2 ^ fuel → n < 2 ^ width fuel n
width_upper zero n h = let e : n ≡ 0 = omega arith in rw (e, width-zero zero) (omega arith)
width_upper (suc fuel) n h = elim (Bool-cases (n == 0)) [
  | inl none ↦ let e : n ≡ 0 = ground arith in rw (e, width-zero (suc fuel)) (omega arith)
  | inr some_left ↦
      let ih = width_upper fuel (n / 2) (half fuel n h) in
      rw (width_step fuel n (ground arith)) (omega (arith, ih))
]

width_lower : (fuel n : ℕ) → 0 < n → n < 2 ^ fuel → 2 ^ width fuel n ≤ n + n
width_lower zero n lo h = absurd (omega arith)
width_lower (suc fuel) n lo h = elim (Bool-cases (n / 2 == 0)) [
  | inl none ↦
      let e : n ≡ 1 = ground arith in rw (width_step fuel n lo, e, width-zero fuel) (omega arith)
  | inr some_left ↦
      let ih = width_lower fuel (n / 2) (ground arith) (half fuel n h) in
      rw (width_step fuel n lo) (omega (arith, ih))
]

width-le : (k fuel n : ℕ) → n < 2 ^ k → width fuel n ≤ k
unfolding width
width-le k zero n h = omega arith
width-le zero (suc fuel) n h = ground arith
width-le (suc k) (suc fuel) n h = ground (arith, width-le k fuel (n / 2) (half k n h))

-- For n from 1 to 2 ^ 30, next_pow2 is a power of two that is at least n and less than 2 * n.
pub next_pow2_bounds :
    (n : ℕ)
    → 1 ≤ n
    → n ≤ 2 ^ 30
    → (k : ℕ) × (next_pow2 n ≡ 2 ^ k) × (n ≤ next_pow2 n) × (next_pow2 n < 2 * n)
unfolding next_pow2 shift_one
next_pow2_bounds n lo hi = elim (Bool-cases (leb n 1)) [
  | inl small ↦ rw small (0, refl, ground arith, ground arith)
  | inr big ↦
      let w = width 64 (n - 1) in
      let fits : ltb w 31 ≡ true = ground (arith, width-le 30 64 (n - 1) (omega arith)) in
      let up = width_upper 64 (n - 1) (omega arith) in
      let low = width_lower 64 (n - 1) (ground arith) (omega arith) in
      rw (big, fits) (w, refl, omega (arith, up), omega (arith, low))
]
