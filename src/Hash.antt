-- ===== src/Hash.antt =====
-- src/hash.c: password hashes.
pub mod Djb2
pub mod Hex
pub mod Compare
pub mod Salt
pub mod Password
