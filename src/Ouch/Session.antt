-- ===== src/Ouch/Session.antt =====
-- include/bist/ouch/session.hpp: the session over one TCP socket. The modules below follow the
-- class: its state, its write side, its read side, its timers, and what is proved of them.
pub mod State
pub mod Send
pub mod Dispatch
pub mod Receive
pub mod Timers
