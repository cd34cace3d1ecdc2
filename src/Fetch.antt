-- ===== src/Fetch.antt =====
-- The direct fetch of a document, crates/basecrawl-core/src/fetch.rs.
pub mod Types
pub mod Headers
pub mod Request
pub mod Run
pub mod Response
pub mod Exchange
pub mod Redirects
pub mod Chunked
