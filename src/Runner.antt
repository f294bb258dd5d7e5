-- ===== src/Runner.antt =====
-- include/bist/runner/: scenarios and the runners that replay them.
pub mod Scenario
pub mod Fields
pub mod Events
pub mod Replay
pub mod Steps
pub mod Link
pub mod Burst
pub mod Run
pub mod Fix
