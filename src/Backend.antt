-- ===== src/Backend.antt =====
-- What the two managers of on-demand backends share: processes, the life of one backend, and
-- what holds of it.
pub mod Process
pub mod Manager
pub mod Invariant
mod Tests
