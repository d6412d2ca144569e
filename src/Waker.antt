-- ===== src/Waker.antt =====
-- Blocking in the channels: `crossbeam-channel/src/context.rs`, what a blocked thread waits on, and
-- `crossbeam-channel/src/waker.rs`, the queues of blocked operations, with `Selected` of
-- `crossbeam-channel/src/select.rs`. Each `Waker` method runs under the lock of its `SyncWaker`.
pub mod Context
pub mod Broadcast
pub mod Defs
pub mod Sync
pub mod Queues
pub mod Wait
pub mod Select
mod Tests
