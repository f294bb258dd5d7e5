-- ===== src/Core.antt =====
-- include/bist/core: scalar types, errors, big-endian fields, space-padded text.
pub mod Types
pub mod Alpha
pub mod Endian
pub mod Codec
pub mod Ring
