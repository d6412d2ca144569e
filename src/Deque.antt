-- ===== src/Deque.antt =====
-- The work-stealing deque, `Worker` and `Stealer` of `crossbeam-deque/src/deque.rs`.
pub mod Batch
pub mod BatchCopy
pub mod BatchLoop
pub mod BatchSteal
pub mod BatchLimit
pub mod BatchPop
pub mod BatchPopLoop
pub mod Defs
pub mod Drop
pub mod Invariant
pub mod Linear
pub mod Proceed
pub mod Order
pub mod Owner
pub mod Pop
pub mod Push
pub mod Reserve
pub mod Resize
pub mod Reverse
pub mod Spec
pub mod Steal
pub mod Stealer
pub mod Thief
pub mod Threads
pub mod Tests
pub mod Tickets
pub mod Window
