-- ===== src/Observability.antt =====
-- include/bist/observability/: what outlives a run.
pub mod SequenceStore
