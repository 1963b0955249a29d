-- ===== src/Chat.antt =====
-- The manager of the chat LLM (app/process_manager.py, `ProcessManager`).
pub mod Ensure
pub mod Idle
pub mod Laws
mod Runs
mod Files
mod Tests
