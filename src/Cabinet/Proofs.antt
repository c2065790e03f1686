-- ===== src/Cabinet/Proofs.antt =====
-- The laws of the cabinet extractor.
pub mod Scramble
pub mod Ends
pub mod Counts
pub mod RoundTrip
pub mod Rounds
pub mod Whole
pub mod Volumes
pub mod Tests
pub mod Layout
pub mod Directory
