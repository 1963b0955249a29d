-- ===== src/Servers.antt =====
-- The server of one on-demand role (app/server_manager.py, `RoleServerManager`).
pub mod Ensure
pub mod Laws
pub mod Idle
mod Tests
