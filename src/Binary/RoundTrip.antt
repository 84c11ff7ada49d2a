-- ===== src/Binary/RoundTrip.antt =====
-- Decoding what src/binary/encoder.ts wrote with src/binary/decoder.ts.
pub mod Sizes
pub mod Packed
pub mod Strings
pub mod Addresses
pub mod Attributes
pub mod Nodes
