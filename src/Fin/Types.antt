-- ===== src/Fin/Types.antt =====
-- etc/fbs/Types.fbs and swirly/fin/BasicTypes.hpp: the enumerations and `opposite`; the cost of
-- swirly/fin/Conv.hpp.
use swirly.Base.{Bool, true, false}
use swirly.Base.Int.{ℤ, ◌*ℤ◌}

pub data Side : Type 0 where
  sell none buy : Side

pub data State : Type 0 where
  none new revise cancel trade : State

pub data LiqInd : Type 0 where
  none maker taker : LiqInd

pub data Direct : Type 0 where
  given none paid : Direct

unfoldable pub opposite : Side → Side
opposite Side.none = Side.none
opposite Side.buy = Side.sell
opposite Side.sell = Side.buy

unfoldable pub opposite_liq_ind : LiqInd → LiqInd
opposite_liq_ind LiqInd.none = LiqInd.none
opposite_liq_ind LiqInd.maker = LiqInd.taker
opposite_liq_ind LiqInd.taker = LiqInd.maker

-- `side == Side::Buy`
abbrev pub is_buy : Side → Bool
is_buy Side.buy = true
is_buy Side.sell = false
is_buy Side.none = false

unfoldable pub cost : ℤ → ℤ → ℤ
cost lots ticks = lots *ℤ ticks
