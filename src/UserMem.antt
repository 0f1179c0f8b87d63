-- ===== src/UserMem.antt =====
-- kern/lib/copyinout.c and kern/userprog/uio.c: moving bytes between the kernel and a process.
pub mod Defs
pub mod Copies
pub mod Uio
pub mod Transfers
mod Tests
