-- ===== src/Signal.antt =====
-- src/signal, but for the sender keys of groups.
pub mod LidPairs
pub mod LidMapping
pub mod Address
pub mod Addresses
pub mod Repository
pub mod Sessions
pub mod Known
pub mod Mappings
pub mod Tests
