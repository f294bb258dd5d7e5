-- ===== src/Runner/Fix.antt =====
-- include/bist/runner/fix_replay.hpp: the runner of the FIX scenarios.
pub mod Events
pub mod Price
pub mod Steps
pub mod Run
