-- ===== src/Domain.antt =====
-- The local state of the client: include/bist/domain.
pub mod Throttler
pub mod TokenRegistry
pub mod OrderBook
pub mod Instrument
