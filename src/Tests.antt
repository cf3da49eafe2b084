-- ===== src/Tests.antt =====
-- Concrete inputs, tests of the definitions on them, and the theorems at them.
pub mod Numbers
pub mod Fixtures
pub mod Disk
mod Artifacts
mod Cli
mod Plans
mod Storage
mod Evaluation
mod Workloads
mod Hosts
mod Doctor
mod Sampler
pub mod Reporting
mod Runner
mod Persistence
mod Baselines
