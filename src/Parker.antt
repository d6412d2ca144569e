-- ===== src/Parker.antt =====
-- `Inner` of `crossbeam-utils/src/sync/parker.rs`: the thread that parks and any number of threads that
-- unpark it, one atomic action at a time.
pub mod Defs
pub mod Safety
pub mod Wakeup
mod Tests
