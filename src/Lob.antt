-- ===== src/Lob.antt =====
-- The limit-order-book engine of swirly/lob.
pub mod Sess
pub mod Response
pub mod Engine
pub mod Create
pub mod Change
pub mod Batch
pub mod Markets
pub mod Trade
pub mod Tests
