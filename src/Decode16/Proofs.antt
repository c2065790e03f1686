-- ===== src/Decode16/Proofs.antt =====
-- Proofs about the decoder.
pub mod Forward
pub mod Stamped
pub mod Progress
pub mod Steps
pub mod Branches
pub mod Jumps
pub mod ModRm
pub mod Tiling
mod Tests
