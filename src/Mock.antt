-- ===== src/Mock.antt =====
-- The gateway that stands in for the exchange: include/bist/mock and src/mock.
pub mod Gateway
