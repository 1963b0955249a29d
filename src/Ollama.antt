-- ===== src/Ollama.antt =====
-- The adapter for the Ollama API (app/ollama.py).
pub mod Values
pub mod Requests
pub mod Calls
pub mod Answers
pub mod Stream
mod Grammar
mod Laws
mod InOrder
mod Tests
