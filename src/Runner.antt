-- ===== src/Runner.antt =====
-- The validation runner (src/platval/runner/engine.py), from a plan to its results.
pub mod Parameters
pub mod Machine
pub mod Cases
pub mod Execute
pub mod Telemetry
pub mod Test
pub mod Run
pub mod PlanLoader
