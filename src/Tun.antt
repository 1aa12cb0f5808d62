-- ===== src/Tun.antt =====
-- The package tun/: the configuration of TUN devices through netlink.
pub mod Prefixes
pub mod Address
pub mod Config
pub mod Routes
mod Examples
