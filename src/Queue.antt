-- ===== src/Queue.antt =====
-- kern/lib/queue.c: the ring buffer of pointers, and the first-in first-out list that it stands for.
-- A slot is `none` until it is written. An argument `mem` is the answer of the one `kmalloc` that a
-- call may make. `q_grow` and `q_addtail` call each other: `grow_with` takes the call of `q_addtail`
-- as a function, and `addtail_to` ties the two by a depth; the inner calls never grow, so two levels
-- are enough.
pub mod Defs
mod Holding
mod Tail
pub mod Growth
pub mod Refine
mod Tests
pub use Defs.{Queue, create, preallocate, is_empty, addtail, remhead, destroy}
pub use Holding.{Holds}
