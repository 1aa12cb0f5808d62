-- ===== src/Routing/Examples.antt =====
-- Concrete configurations, packets and a kernel in memory, at which the theorems are used.
pub mod Sample
pub mod Kernel
mod Policies
mod Managers
mod Monitors
mod Netlinks
