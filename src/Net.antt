-- ===== src/Net.antt =====
-- include/bist/net: SoupBinTCP framing.
pub mod Soup
