-- ===== src/Counter.antt =====
-- The reference counter of a channel, `crossbeam-channel/src/counter.rs`, one atomic action of one
-- handle at a time. The channel and the two closures that disconnect it are parameters.
pub mod Defs
pub mod Safety
mod Tests
