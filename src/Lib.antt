-- ===== src/Lib.antt =====
-- Verification of parts of the crate `rustyfill`: the slot maps of `collections/slotmap`, the fallible
-- operations of `Vec` and `VecDeque`, the reference counts of `Arc` and the interner that stands on
-- them; of the error reports of `rustyfill-errors`; and of the module paths of the binding generator
-- `rustyfill-sys-bindings`.
--
-- The crate `rustyfill` offers collections whose operations report a failed allocation as an error.
-- Its slot map hands out keys, each a slot's index with a version, and never lets an old key read a
-- new value: a slot's version is odd while it holds a value and even while it is free, and it grows
-- with each insertion and removal. The secondary map attaches more data to the keys of a slot map.
--
-- The files, and the code that each is about:
--
-- - `Slotmap/Key`: `KeyData` of `slotmap/key.rs`. The trait `Key` asks its types to be thin wrappers
--   of `KeyData`, so the model's keys are `KeyData`.
-- - `Slotmap/Basic`: `SlotMap` of `slotmap/basic.rs`, with the union inside a slot as a data type.
--   Its children hold the invariant (`Invariant`), the abstract map (`View`) and the operations'
--   theorems (`Create`, `Insert`, `Remove`, `Reuse`, `Detach`, `Access`).
-- - `Slotmap/Drain`: `Drain`, `clear` and `retain`. `Slotmap/Iter`: the iterators by reference.
--   `Slotmap/Disjoint`: `get_disjoint_mut`.
-- - `Slotmap/Secondary`: `SecondaryMap` of `slotmap/secondary.rs`. Its children hold the invariant and
--   the abstract map (`Invariant`) and the operations' theorems (`Insert`, `Remove`), and `retain`
--   (`Retain`) and `drain` and `clear` (`Drain`) with theirs; `Iter` has the iterators and the
--   equality of maps, `Entries` the entries, mutable access and `extend`.
-- - `Vec`: `rustyfill/src/alloc/vec/vec_.rs`. Its children have what a loop that pushes leaves
--   (`Fill`) with the loops over clones (`Clones`) and over a closure's results (`Made`), what a
--   `TruncateGuard` leaves (`Rolled`), the operations under it (`Extend`) with the indices that
--   bounds let through (`Bounds`), insertion, appending and shrinking (`Insert`), the constructors
--   (`Collect`), and `try_extend` of `alloc/vec/try_extend.rs` with the sources of
--   `rustyfill/src/recovery.rs` (`Resume`).
-- - `Deque`: the ends of `VecDeque` in `rustyfill/src/alloc/vecdeque/vecdeque_.rs`, with their theorems
--   in `Ends`.
-- - `Report`: `rustyfill-errors/src/report.rs` and `frame/frame.rs`, over the deques. Its children have
--   what evictions leave (`Kept`), pushes (`Push`, `First`), the changes of context (`Change`), of which
--   `Demote` has the theorems of `change_context`, `Fallible` the code of `try_change_context` with its
--   loops (`Boxing`) and its ends (`Recover`), and `Compare` both beside each other, and the iterators
--   over all frames (`Walk`), with the order that they follow (`Preorder`), their steps (`Steps`,
--   `Orders`, `Calls`) and whole runs (`Collected`), and the search by type (`Search`, with `Found`).
-- - `Arc`: `rustyfill/src/alloc/arc/arc_.rs`. Its children have the threads that hold handles
--   (`Handles`), the cases of each update (`Cases`), the invariant of the counts (`Counts`) and the
--   way to give an allocation back (`Release`).
-- - `Interner`: `rustyfill/src/collections/interner/mod.rs`, over the counts of `Arc`. Its children
--   have the search without its side effects (`Search`), what an answer means (`Created`) and that each
--   call gives one (`Answer`), that equal texts share an allocation (`Sharing`), calls that do not
--   find the text (`Missed`), the growth of the table (`Growth`) and pruning (`Prune`).
-- - `Shards`: the count of shards and the choice of the shard in
--   `rustyfill/src/collections/chashmap/map.rs`.
-- - `ModulePath`: `rustyfill-sys-bindings/src/syntaxes/module_path.rs`, with the theorems on the
--   two spellings (`Parse`, `Canonical`), on prefixes and children (`Relations`) and on the borrowed
--   views of parent and tail (`Views`).
-- - `Text`: what module paths use of Rust's `str`, over lists of code points.
-- - `Prelude`: tests, lists under native indices, and how Rust code ends. `Tests`: runs, and the
--   theorems at concrete inputs.
--
-- A method takes the map and returns it beside its result. `Outcome` tells a return from a panic and
-- from undefined behaviour: a read of a union field other than the one written last, and an unchecked
-- index outside of the vector, are undefined behaviour. Machine integers are numbers with the wrapping
-- or the check written out; `usize` has 64 bits. A Rust `Result` is `Result`, `ok` or `err`.
--
-- The allocator is outside of the code. A call that may allocate takes an `Allocator`, which says what
-- `Vec::with_capacity` and `Vec::try_reserve` answer in that call; nothing is assumed of it.
--
-- A vector is its items and its capacity. The allocator is its `Growth`; what the vectors' theorems
-- assume of it is `MakesRoom`, that a reservation which succeeds gives the room that was asked for, as
-- `Vec::try_reserve` documents. A user's `try_clone` may succeed, fail or panic at each call; a panic
-- unwinds, and a push onto a full vector, which could abort the process, is an end of its own.
--
-- Each update of a reference count is atomic, so that threads are interleaved by updates: `Step` is one
-- update on a handle that some thread holds. Dropping the last `Arc` and dropping the `Weak` that it
-- leaves are two steps.
--
-- The interner is modelled on the table of one shard, which its hash selects. The hasher and the raw
-- hash table are parameters (`Hashing`), with the hash that each entry was stored under last, since
-- the table stores its entries again when it grows. What other threads do while a call holds a lock,
-- and while it holds none, is a function of the call (`Call`); under a lock they can change counts
-- but not the table.
--
-- A report's boxed items are one type, and boxing a context is a function into it; the children of a
-- frame are a list, those of the head a deque. `Ending` tells a return from a panic, from an abort and
-- from a loop whose fuel is spent. The heap answers each request of a change of context by a clock
-- (`Heap`), so that a retry may succeed. The loops of `push` and of `change_context` are on fuel: one
-- more than the peers, or the children, is enough, since each round takes one away. Each call of an
-- iterator takes the answer to the one reservation that it may make.
--
-- A path knows its segments alone; the driver and the emitter use it to place generated modules.
--
-- Loops over a vector recur on the slots that are left. The loop that drops a `Drain` has one round
-- for each slot and one more, which is enough because each `next` that yields moves the cursor on.
--
-- Not modelled: capacities beyond the reservation calls, formatting, `Hash`, and what a closure
-- does to the world outside; the slots' `Drop`, which frees values and changes no state of the map;
-- `to_file_path` of a module path; boxed slices and the aliases of `Vec`; the insertions and
-- extensions of `VecDeque`; attaching to a report, its `downcast_mut`, the visit with
-- mutable access and its rendering;
-- the uninitialised and pinned constructors and `unwrap_or_try_clone` of `Arc`; the `Intern` enum and
-- the call counter of the interner; the concurrent hash map but for the choice of the shard; and the
-- crate's other collections, which are mostly calls of the standard library behind a reservation.
mod Prelude
mod Text
pub mod Slotmap
pub mod ModulePath
pub mod Vec
pub mod Deque
pub mod Arc
pub mod Interner
pub mod Shards
mod Tests
pub mod Report
