-- ===== src/Niri.antt =====
-- src/ipc/niri: the backend of Niri.
pub mod Generator
pub mod Events
pub mod Changed
mod Tests
