-- ===== src/Trim.antt =====
-- Context-window overflow: which turns of a chat request are dropped (app/proxy.py).
pub mod Estimate
pub mod Groups
pub mod Messages
mod Cut
mod Least
mod Laws
pub mod Tests
unfoldable pub use Estimate.{estimate_tokens, message_tokens}
unfoldable pub use Messages.{trim_messages}
