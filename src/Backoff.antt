-- ===== src/Backoff.antt =====
-- `Backoff` of `crossbeam-utils/src/backoff.rs`: how many times it spins, and when it gives up.
pub mod Defs
pub mod Bounds
mod Tests
