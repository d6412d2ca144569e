-- ===== src/Channel.antt =====
-- `Channel` of `crossbeam-channel/src/flavors/array.rs`, the bounded channel: each method as it runs
-- while no other thread touches the channel. A `compare_exchange_weak` may fail spuriously, as a list
-- of verdicts says; the loops take fuel.
pub mod Calls
pub mod Defs
pub mod Invariant
pub mod Disconnect
pub mod Marks
pub mod Send
pub mod Recv
pub mod Fifo
pub mod Refine
pub mod New
pub mod Receiver
pub mod Sender
pub mod SendersGone
pub mod Ready
mod Tests
