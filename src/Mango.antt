-- ===== src/Mango.antt =====
-- src/ipc/mango: the backend of Mango.
pub mod Generator
