-- ===== src/Fin/MarketId.antt =====
-- swirly/fin/MarketId.hpp: the id of a market, made of an instrument's id and a settlement day.
use swirly.Base.{ℕ, ◌+◌, ◌-◌, ◌*◌, ◌%◌, ◌<◌, ◌≡◌, ap, ltb, if◌then◌else◌, arith, ◌↔◌}
use swirly.Base.Int.{ℤ, pos, negsuc, ◌-ℤ◌}
use swirly.Util.Date.{jd_to_tjd}

abbrev low : ℕ
low = 65536

abbrev word : ℕ
word = 4294967296

-- `x & 0xffff` of an `int32_t` in two's complement.
unfoldable pub low_bits : ℤ → ℕ
low_bits (pos n) = n % low
low_bits (negsuc n) = low - 1 - n % low

-- The `int32_t` that a word of 32 bits spells.
abbrev as_int32 : ℕ → ℤ
as_int32 n = if ltb n 2147483648 then pos n else negsuc (word - 1 - n)

-- Both operands are `int32_t`, so that the shift wraps at 32 bits before the result is widened. The
-- low 16 bits of the shifted id are 0: `|` of such numbers is their sum.
unfoldable pub to_market_id : ℕ → ℕ → ℤ
to_market_id instr_id settl_day =
    as_int32 (instr_id * low % word + low_bits (jd_to_tjd (pos settl_day)))

low_bits_range : (z : ℤ) → low_bits z < low
unfolding low_bits
low_bits_range (pos n) = omega arith
low_bits_range (negsuc n) = omega arith

as_int32_inj : (a b : ℕ) → a < word → b < word → as_int32 a ≡ as_int32 b → a ≡ b
as_int32_inj a b ha hb h = ground arith

low_bits-day : (d : ℕ) → low_bits (jd_to_tjd (pos d)) ≡ (d + 50368) % low
unfolding low_bits jd_to_tjd ◌-ℤ◌
low_bits-day d = ground arith

-- Two markets have one id exactly if their instruments agree in the low 16 bits of their ids, and
-- their settlement days agree modulo 65536.
pub to_market_id_iff :
    (i j d e : ℕ)
    → (to_market_id i d ≡ to_market_id j e) ↔ ((i % 65536 ≡ j % 65536) × (d % 65536 ≡ e % 65536))
unfolding to_market_id
to_market_id_iff i j d e = (
  (λ h.
      let whole =
        as_int32_inj (i * low % word + low_bits (jd_to_tjd (pos d)))
          (j * low % word + low_bits (jd_to_tjd (pos e)))
          (omega (arith, low_bits_range (jd_to_tjd (pos d))))
          (omega (arith, low_bits_range (jd_to_tjd (pos e)))) h in
      (
        omega
            (arith, low_bits_range (jd_to_tjd (pos d)), low_bits_range (jd_to_tjd (pos e)), whole),
        omega (
          arith,
          low_bits_range (jd_to_tjd (pos d)),
          low_bits_range (jd_to_tjd (pos e)),
          whole,
          low_bits-day d,
          low_bits-day e,
        ),
      )),
  (λ (h, k). ap as_int32 (omega (arith, h, k, low_bits-day d, low_bits-day e))),
)
