-- ===== src/Killswitch.antt =====
-- The package killswitch/: a client of the kill switch daemon, which accepts one temporary ruleset
-- per connection.
pub mod Rules
pub mod Client
pub mod Session
mod Examples
