-- ===== src/Groups.antt =====
-- src/groups/index.ts: groups, as queries to the server.
pub mod Metadata
pub mod Operations
pub mod Participating
pub mod Tests
