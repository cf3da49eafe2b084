-- ===== src/Workloads.antt =====
-- Bounded workloads (src/platval/workloads).
pub mod Safety
pub mod Control
pub mod Allocation
pub mod Counts
pub mod Timing
pub mod Output
pub mod Config
pub mod Host
pub mod Memory
pub mod Stability
pub mod Storage
pub mod FloatingPoint
pub mod Integer
