-- ===== src/Anchors.antt =====
-- crates/frances-anchors: bytes as dictionary words of eleven bits, and line hashes.
pub mod Words
pub mod Hash
pub mod Tests
pub mod Encode
pub mod Decode
pub mod Digits
