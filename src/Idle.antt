-- ===== src/Idle.antt =====
-- src/server/idle.c: the idle manager, in the files below.
pub mod State
pub mod Monitors
pub mod Inhibitors
pub mod System
pub mod Waits
pub mod Waiting
pub mod Checks
pub mod Blocks
pub mod Calls
pub mod Invariant
pub mod Lookup
pub mod Capacity
pub mod Proxies
pub mod Toggle
pub mod Events
mod Tests
