-- ===== src/Kheap.antt =====
-- kern/lib/kheap.c: the kernel's heap, kmalloc and kfree.
pub mod Pagerefs
pub mod Source
pub mod Defs
pub mod Records
pub mod Freelist
pub mod Blocks
pub mod Invariant
pub mod Sizes
pub mod Growth
pub mod Filled
pub mod NewPage
pub mod Alloc
pub mod Freed
pub mod Release
pub mod Retire
pub mod Free
pub mod Machine
pub mod Pair
pub mod Whole
mod Tests
