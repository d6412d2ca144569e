-- ===== src/Epoch.antt =====
-- The epoch-based garbage collector: `crossbeam-epoch/src/epoch.rs` and, of
-- `crossbeam-epoch/src/internal.rs`, the bags, the
-- participants, `try_advance` and `collect`, each as it runs
-- while no other thread acts.
pub mod Defs
pub mod Defer
pub mod Keeps
pub mod Local
pub mod Moves
pub mod Pinned
pub mod Reclaim
pub mod Words
mod Tests
