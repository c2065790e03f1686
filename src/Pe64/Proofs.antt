-- ===== src/Pe64/Proofs.antt =====
-- Proofs about the PE32+ reader.
pub mod Reads
pub mod Translation
pub mod Tables
pub mod Ordinals
pub mod Unwind
pub mod Parse
mod Tests
