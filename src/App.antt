-- ===== src/App.antt =====
-- include/bist/app/ and include/bist/risk/: the policies around the trading client.
pub mod Reconnect
pub mod Ptrm
