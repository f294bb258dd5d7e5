-- ===== src/Tests.antt =====
-- Runs of the code at concrete inputs.
mod Limits
mod Tokens
mod Orders
mod Sending
mod Receiving
mod Requests
mod Exchange
mod Instruments
mod Replaying
mod FixReplaying
mod Policies
mod Configs
mod Ring
