-- ===== src/Syscall.antt =====
-- kern/arch/mips/mips/syscall.c: the system calls on processes and on the heap.
mod Defs
mod Heap
pub mod Growth
pub mod Waiting
pub mod Timeout
mod Tests
