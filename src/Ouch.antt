-- ===== src/Ouch.antt =====
-- include/bist/ouch: messages, codec, session and client.
pub mod Messages
pub mod Codec
pub mod Session
pub mod Client
