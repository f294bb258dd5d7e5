-- ===== src/Mock/Gateway.antt =====
-- src/mock/ouch_gateway.cpp and include/bist/mock/ouch_gateway.hpp: what the mock gateway does with
-- the packets of one client. Its threads, its listening socket and `read_n` are not modelled.
pub mod State
pub mod Writes
pub mod Login
pub mod Orders
pub mod Quotes
pub mod Handle
pub mod Handshake
pub mod Replies
pub mod Tokens
pub mod Resting
pub mod Entries
