-- ===== src/Dns.antt =====
-- The package dns/: the providers that own the system's DNS server by a file or by a command.
pub mod Servers
pub mod Provider
pub mod Direct
pub mod Commands
pub mod Openresolv
pub mod DebianResolvconf
mod Examples
