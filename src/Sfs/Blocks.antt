-- ===== src/Sfs/Blocks.antt =====
-- kern/fs/sfs/sfs_io.c, and the writes of whole blocks of kern/fs/sfs/sfs_vnode.c. The device is the disk
-- of Disk.
use operating_system.Prelude.{
  ℕ, zero, suc, ◌*◌, Bool, true, false, Option, Outcome, done, halt, ◌>>=◌, Code, ok, einval, eio,
  word,
}
use operating_system.UserMem.Defs.{Bytes}
use operating_system.UserMem.Uio.{Direction, reading, writing, Uio, mk_kuio}
use operating_system.Sfs.Disk.{Disk, Result, io}

abbrev pub blocksize : ℕ
blocksize = 512

-- `SFSUIO`
unfoldable pub block_uio : ℕ → ℕ → Direction → Uio
unfolding mk_kuio
block_uio ptr block dir = mk_kuio ptr blocksize (word (block * blocksize)) dir

module _ (d : Disk) (faults : ℕ → Bool) (current : Option ℕ) where
  -- What `sfs_rwblock` does with an answer of the device: with retries left, and without.
  unfoldable pub retried :
      (Uio → Bytes → d.State → Result d faults current)
      → Code × Uio × Bytes × d.State
      → Result d faults current
  retried again (einval, u, m, h) = halt
  retried again (eio, u, m, h) = again u m h
  retried again (c, u, m, h) = done (c, u, m, h)

  unfoldable pub given_up : Code × Uio × Bytes × d.State → Result d faults current
  given_up (einval, u, m, h) = halt
  given_up (c, u, m, h) = done (c, u, m, h)

  -- `retry:`, with `n` retries left
  unfoldable pub rw_loop : ℕ → Uio → Bytes → d.State → Result d faults current
  unfolding retried given_up
  rw_loop zero u m h = io d faults current u m h >>= given_up
  rw_loop (suc n) u m h = io d faults current u m h >>= retried (rw_loop n)

  -- `sfs_rwblock`
  unfoldable pub rwblock : Uio → Bytes → d.State → Result d faults current
  unfolding rw_loop
  rwblock u m h = rw_loop 10 u m h

  -- `sfs_rblock` and `sfs_wblock`
  unfoldable pub rblock : ℕ → ℕ → Bytes → d.State → Result d faults current
  unfolding rwblock block_uio
  rblock ptr block m h = rwblock (block_uio ptr block reading) m h

  unfoldable pub wblock : ℕ → ℕ → Bytes → d.State → Result d faults current
  unfolding rwblock block_uio
  wblock ptr block m h = rwblock (block_uio ptr block writing) m h

  -- `sfs_clearblock`, with the zeros at an address
  unfoldable pub clearblock : ℕ → ℕ → Bytes → d.State → Result d faults current
  unfolding wblock
  clearblock zeros block m h = wblock zeros block m h

  -- The end of `sfs_sync_inode`: `sv_dirty` is cleared if the write came back without an error.
  unfoldable pub synced : Code × Uio × Bytes × d.State → Code × Bool × Bytes × d.State
  synced (ok, u, m, h) = (ok, false, m, h)
  synced (c, u, m, h) = (c, true, m, h)

  -- `sfs_sync_inode`: the inode's address and its number, and `sv_dirty`
  unfoldable pub sync_inode :
      ℕ → ℕ → Bool → Bytes → d.State → Outcome (Code × Bool × Bytes × d.State)
  unfolding synced wblock
  sync_inode inode ino true m h = wblock inode ino m h >>= λ r. done (synced r)
  sync_inode inode ino false m h = done (ok, false, m, h)
