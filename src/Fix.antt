-- ===== src/Fix.antt =====
-- The FIX protocol: swirly/fix.
pub mod Bytes
pub mod Tokeniser
pub mod Parser
pub mod Stream
pub mod Wire
pub mod Tests
