-- ===== src/Models.antt =====
-- The domain models (src/platval/models).
pub mod Status
pub mod Scalar
pub mod Results
pub mod Plan
pub mod Telemetry
pub mod Platform
