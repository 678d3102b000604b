-- ===== src/Util.antt =====
-- The utilities of swirly/util that the engine stands on.
pub mod Date
pub mod Set
pub mod Math
pub mod RingBuffer
pub mod Tests
