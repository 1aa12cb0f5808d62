-- ===== src/System.antt =====
-- The default TUN of sysnet.go and default_tun.go: its options, and the routing configuration that
-- it is built with.
pub mod Options
pub mod Sources
pub mod Addrs
pub mod Families
pub mod Built
pub mod Updates
pub mod Consistent
pub mod Settled
pub mod Live
pub mod Closing
mod Examples
