-- ===== src/Vnode.antt =====
-- kern/fs/vfs/vnode.c: the counts of a vnode, and who reclaims it.
pub mod Defs
pub mod Counts
mod Tests
