-- ===== src/Persistence.antt =====
-- Local persistence (src/platval/persistence).
pub mod Records
pub mod Database
pub mod Repository
pub mod Files
pub mod Locations
pub mod Artifacts
