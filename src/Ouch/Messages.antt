-- ===== src/Ouch/Messages.antt =====
-- include/bist/ouch/messages.hpp: the wire structs.
pub mod Inbound
pub mod Outbound
