-- ===== src/Registry.antt =====
-- The model registry (app/registry.py): the launch configs and the questions asked of them.
pub mod Config
pub mod Query
pub mod Argv
pub mod Reload
pub mod Checked
mod Tests
