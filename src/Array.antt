-- ===== src/Array.antt =====
-- kern/lib/array.c: the resizeable array of pointers, and the list that it stands for.
-- A slot of the block `v` is `none` until it is written; `v` itself is `none` for NULL. An argument
-- `mem` is the answer of the one `kmalloc` that a call may make (true: it returns a block). Sizes
-- are numbers; an index, which the code compares with 0, is an integer.
pub mod Defs
mod Loops
mod Holding
pub mod Refine
pub mod Remove
mod Tests
pub use Defs.{Array, create, getnum, getguy, preallocate, setsize, setguy, add, remove}
pub use Holding.{Holds}
