-- ===== src/Fix.antt =====
-- include/bist/fix/: the surface of the FIX layer.
pub mod Facade
