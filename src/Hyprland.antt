-- ===== src/Hyprland.antt =====
-- src/ipc/hyprland: the backend of Hyprland.
pub mod Generator
pub mod Quote
pub mod Actions
pub mod Lua
pub mod Binds
pub mod Events
pub mod Sessions
mod Tests
