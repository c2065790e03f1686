-- ===== src/Unmangler/Proofs.antt =====
-- The laws of the reader of mangled names.
pub mod Ends
pub mod Total
pub mod Signature
pub mod Grammar
pub mod Words
pub mod Spelled
pub mod Lengths
pub mod RoundTrip
pub mod Tests
