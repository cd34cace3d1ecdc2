-- ===== src/Robots.antt =====
-- crates/basecrawl-core/src/robots.rs: the robots policy and sitemap discovery.
pub mod Wildcard
pub mod Parse
pub mod Rules
pub mod Policy
pub mod Sitemaps
mod Tests
