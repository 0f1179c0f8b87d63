-- ===== src/Sfs.antt =====
-- kern/dev/lamebus/lhd.c, kern/fs/sfs/sfs_io.c and kern/fs/sfs/sfs_vnode.c: the disk, the blocks of
-- the file system on it, and the map from the blocks of a file to these.
mod Disk
mod Blocks
pub mod BlockMap
pub mod Chains
pub mod Mapping
pub mod Reads
pub mod Writes
mod Tests
mod MapTests
