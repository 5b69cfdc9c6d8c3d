-- ===== src/Policy.antt =====
-- internal/core/policy: route policies, their metadata, the startup validator and the request
-- pipeline.
pub mod Metadata
pub mod Rules
pub mod Http
pub mod Gates
pub mod CacheControl
pub mod Caching
pub mod Pipeline
mod Tests
