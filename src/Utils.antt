-- ===== src/Utils.antt =====
-- src/utils.
pub mod Retry
pub mod PreKeyManager
pub mod PreKeyMutations
pub mod PreKeyUpload
pub mod PreKeysStored
pub mod Tests
