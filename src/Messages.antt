-- ===== src/Messages.antt =====
-- src/messages.
pub mod LruCache
pub mod Receive
pub mod Origin
pub mod Clean
pub mod Devices
pub mod DeviceCache
pub mod Relay
pub mod Participants
pub mod RetryManager
pub mod Retries
pub mod Tests
pub mod StanzaTests
