-- ===== src/Fin.antt =====
-- The financial objects of swirly/fin.
pub mod Types
pub mod Date
pub mod MarketId
pub mod Order
pub mod Level
pub mod MarketSide
pub mod Market
pub mod Exec
pub mod Posn
pub mod MsgQueue
pub mod Tests
