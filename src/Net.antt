-- ===== src/Net.antt =====
-- Go's net/netip, as far as the program uses it: addresses (Net/Addr) and prefixes (Net/Prefix).
pub mod Addr
pub mod Prefix
pub mod Ip
