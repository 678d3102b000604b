-- ===== src/App.antt =====
-- The shared memory between the engine and the journal, of swirly/app.
pub mod MemQueue
pub mod Tests
