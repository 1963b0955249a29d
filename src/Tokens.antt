-- ===== src/Tokens.antt =====
-- Token totals that outlive the proxy, and the counts of responses and streams
-- (app/token_store.py, app/proxy.py).
pub mod Store
pub mod Meter
pub mod Chunks
mod Laws
mod Ledger
mod Tests
