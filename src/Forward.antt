-- ===== src/Forward.antt =====
-- What the proxy does to requests and answers on their way (app/proxy.py).
pub mod Overflow
mod Digits
mod Errors
mod Reading
pub mod Retry
mod Retries
pub mod Stream
mod Streams
pub mod Bodies
pub mod Subtitles
pub mod Transcripts
mod Cues
mod Tests
mod StreamTests
