-- ===== src/Lib.antt =====
-- Crossbeam, as pure functions on the states of its data structures.
--
-- The parts, and the files that model them:
-- - Stamp, Ring: what the two ring buffers share. A position of a ring is a ticket, a number that
--   grows by one with each element; its stamp is the word that the code stores, lap and index in one.
--   `advance` is the step from a stamp to the next.
-- - ArrayQueue: `crossbeam-queue/src/array_queue.rs`. ArrayQueue/Defs has `new`, `push`,
--   `force_push`, `push_or_else` and `pop` (their loops are `push_loop` and `pop_loop`),
--   ArrayQueue/Exclusive `push_mut`, `pop_mut`, `IntoIter::next` (`next`), `Drop` (`dropped`) and the
--   methods that look. ArrayQueue/Fifo is the bounded list that a queue stands for.
-- - Waker: Waker/Context models `crossbeam-channel/src/context.rs` and the `Operation` and `Selected`
--   of `crossbeam-channel/src/select.rs`; Waker/Defs and Waker/Sync model the `Waker` and the
--   `SyncWaker` of `crossbeam-channel/src/waker.rs`. `Waker::try_select` is `try_select_one`.
-- - Channel: `crossbeam-channel/src/flavors/array.rs`. Channel/Defs has `with_capacity`,
--   `start_send`, `write`, `start_recv` and `read`, Channel/Calls the calls made of them,
--   disconnection (`discard_all_messages` is `discard_loop`) and the methods that look.
--   A channel notifies its two `SyncWaker`s. Channel/Fifo is the bounded list that it stands for.
-- - Counter: `crossbeam-channel/src/counter.rs`. Sides are alike, so `acquire` and the `fetch_sub` of
--   `release` are functions of a side; the rest of `release` is one action per side.
-- - Parker: `Inner` of `crossbeam-utils/src/sync/parker.rs`. `park_step` is the next atomic action of
--   `park`; `unpark_swap`, `unpark_lock` and `unpark_notify` are those of `unpark`.
-- - Backoff: `crossbeam-utils/src/backoff.rs`; a backoff is its `step`, and a call returns its wait.
-- - Epoch: `crossbeam-epoch/src/epoch.rs` (`wrapping_sub` is `distance`) and, of
--   `crossbeam-epoch/src/internal.rs`, the bags, `defer`, `flush`, `try_advance` and
--   `collect` (Epoch/Defs), and the participant with `pin`, `unpin`, `repin` and `finalize`
--   (Epoch/Local).
-- - SegQueue: `crossbeam-queue/src/seg_queue.rs`. SegQueue/Defs has the blocks, by their address, and
--   `push_mut`, `pop_mut`, `is_empty`, `len` and `Drop` (`dropped`); `Block::destroy_mut` is `free_block`. The value with the
--   ticket t stands in block t / 31. SegQueue/Refine has the list that a queue stands for; with
--   fewer than 2 ^ 60 values no index wraps.
-- - SkipList: `crossbeam-skiplist/src/base.rs`. SkipList/Defs has the state: a tower of links at each
--   address (the head at 0) and the reference counts; the key, the value and the height of a node, which
--   never change, are part of the pointer to it. SkipList/Search has the searches: the loop over a level is
--   `walk` with `inspect` as its body, the loop over the levels `descend`, and the two searches differ in
--   the condition on the key, `judge_bound` and `judge_key`. SkipList/Insert and SkipList/Remove have the
--   operations that write, SkipList/Iterate the entries and iterators and `clear`. SkipList/Compare is
--   `Comparator` of `crossbeam-skiplist/src/comparator.rs` with the laws of an order. A list is
--   compared with the chain of nodes of each level (SkipList/Invariant), in which removed nodes may
--   still be linked. A node stands at most once in a chain, so fuel above the number of nodes ever made is
--   enough for a search.
-- - Deque: `Worker` and `Stealer` of `crossbeam-deque/src/deque.rs`. Deque/Defs has the state, an `Inner`
--   and its `Worker` in one, with every method of `Worker` and the `Drop` of `Inner` (`dropped`);
--   Deque/Steal the type `Steal` (`success` is `success_value`), Deque/Stealer `steal` in three parts, and
--   Deque/Batch the batches. Deque/Threads runs the calls of the owner and the parts of the steals of any
--   number of stealers in any order, and Deque/Spec is the list of tasks that this is compared with.
--   A deque has an array of its own for each buffer, by its address; sizes are 2 ^ e with 6 ≤ e ≤ 62,
--   so fewer than 2 ^ 62 tasks fit. `copy_loop` and `drop_loop` have 2 ^ 64 as fuel, which is more than
--   the tasks that any buffer holds.
--
-- A ring is a function from indices to slots, of which those below the capacity count. A value is
-- `none` while its memory is uninitialised; reading it then is the outcome `undefined`. Contexts are
-- shared, so they live in a store, the `World`, which also records the threads that were unparked;
-- entries name their place in it. A word is a number below 2 ^ 64, and its wrap-around is written
-- out. `Index` is taken to be 64 bits wide; a mask by a power of two is a remainder or a difference.
--
-- In Deque/Threads the calls of the owner of a deque are steps between the parts of steals.
-- In Counter and Parker the atomic actions of all threads interleave in any order, as a step relation.
-- Elsewhere a method runs while no other thread touches the structure. What stays of concurrency is in the
-- arguments: a `compare_exchange_weak` may fail spuriously, as the next of its verdicts says (with no
-- verdict left it does not), and `wait_until` reads whatever other threads left, turn by turn.
-- The loops on exchanges take fuel: each turn of theirs either returns or uses up a verdict, so more
-- fuel than verdicts is enough, and the theorems say so; `discard_loop` needs more fuel than there
-- are messages, and `defer_loop` two.
--
-- Not modelled: memory orderings and interleavings inside a method, the blocking `send` and `recv`
-- and selection over several channels, the cache of contexts per thread, `Debug`, the waits
-- inside the loops of the queues, the parts of a call of the owner of a deque, a batch that other threads
-- interrupt or whose destination is its source, the `Injector`, of the skip list the generator of random
-- heights and the iterators that count references, of the `SegQueue` its `push` and `pop` and
-- its `IntoIter`, and the other data structures of the
-- repository.
pub mod ArrayQueue
pub mod Backoff
pub mod Channel
pub mod Counter
pub mod Deque
pub mod Epoch
pub mod Parker
pub mod Prelude
pub mod Ring
pub mod SegQueue
pub mod SkipList
pub mod Stamp
pub mod Waker
