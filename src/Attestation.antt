-- ===== src/Attestation.antt =====
-- crates/basecrawl-core/src/attestation.rs.
pub mod Hex
pub mod Quoted
pub mod Quote
pub mod Sign
mod Tests
