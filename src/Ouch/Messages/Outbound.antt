-- ===== src/Ouch/Messages/Outbound.antt =====
-- The messages from host to client.
mod Accepted
mod Replaced
mod Executed
unfoldable pub use Accepted.*
unfoldable pub use Replaced.*
unfoldable pub use Executed.*
