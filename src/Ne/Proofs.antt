-- ===== src/Ne/Proofs.antt =====
-- The laws of the NE reader.
pub mod Total
pub mod Entries
pub mod Names
pub mod Tests
