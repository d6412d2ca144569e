-- ===== src/SegQueue.antt =====
-- The unbounded queue of `crossbeam-queue/src/seg_queue.rs`.
pub mod Defs
pub mod Pop
pub mod Positions
pub mod Refine
pub mod Tests
pub mod Drop
pub mod Invariant
pub mod Link
pub mod Push
