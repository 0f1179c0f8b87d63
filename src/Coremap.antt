-- ===== src/Coremap.antt =====
-- kern/vm/vm.c, the allocator of physical pages.
pub mod Defs
pub mod Search
pub mod Pages
pub mod Runs
mod Tests
pub use Defs.{Vm, Entry, pmalloc, alloc_kpages, free_kpages}
