-- ===== src/Socket.antt =====
-- src/socket: what guards the connection.
pub mod Crockford
pub mod PairingCode
pub mod StateMachine
pub mod CircuitBreaker
pub mod KeepAlive
pub mod Tests
