-- ===== src/Embedding.antt =====
-- The embedding server (app/embedding_manager.py, `EmbeddingManager`).
pub mod Ensure
pub mod Laws
mod Tests
