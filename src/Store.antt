-- ===== src/Store.antt =====
-- src/store: where credentials and keys are kept.
pub mod Memory
pub mod Tests
