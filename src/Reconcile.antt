-- ===== src/Reconcile.antt =====
-- Tool calls that a backend refused, emitted again under a declared name
-- (app/tool_reconcile.py).
pub mod Match
pub mod Blocks
pub mod Rejected
pub mod Apply
pub mod Stream
pub mod Finish
pub mod Names
pub mod Laws
mod Applied
mod Said
mod Announced
mod Placed
mod Lines
mod Ending
mod Relay
mod Indices
mod Tests
mod StreamTests
