-- ===== src/Routing.antt =====
-- The package routing/: Linux policy routing that sends selected traffic through a VPN TUN.
pub mod Unix
pub mod Model
pub mod Config
pub mod Safe
pub mod Compiler
pub mod Policy
pub mod Manager
pub mod Adapter
pub mod Monitor
pub mod Netlink
pub mod Examples
