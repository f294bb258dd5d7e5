-- ===== src/Ouch/Messages/Inbound.antt =====
-- The messages from client to host.
mod Orders
mod Cancels
unfoldable pub use Orders.*
unfoldable pub use Cancels.*
