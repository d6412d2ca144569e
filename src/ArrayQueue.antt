-- ===== src/ArrayQueue.antt =====
-- `ArrayQueue` of `crossbeam-queue/src/array_queue.rs`: each method as it runs while no other thread
-- touches the queue. A `compare_exchange_weak` may fail spuriously, as a list of verdicts says; the
-- loops take fuel.
pub mod Defs
pub mod Pop
pub mod Fifo
pub mod Refine
pub mod Observe
pub mod New
pub mod Iterate
mod Tests
pub mod Push
pub mod Invariant
pub mod Exclusive
