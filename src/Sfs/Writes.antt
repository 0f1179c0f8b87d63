-- ===== src/Sfs/Writes.antt =====
-- kern/fs/sfs/sfs_io.c, sfs_vnode.c and kern/dev/lamebus/lhd.c: writes of blocks, with the retries.
use operating_system.Prelude.{
  ℕ, ◌+◌, ◌*◌, ◌/◌, ◌%◌, ◌==◌, ltb, false, ◌^◌, ◌<◌, ◌≡◌, refl, ◌∙◌, Bool, true, Option, arith,
  done, ok, eio, word, ◌⊎◌, inl, inr,
}
use operating_system.UserMem.Defs.{Bytes}
use operating_system.UserMem.Uio.{writing, advance, space_ok, transfer, uiomove, mk_kuio}
use operating_system.UserMem.Copies.{moved}
use operating_system.UserMem.Transfers.{uiomove_once}
use operating_system.Sfs.Disk.{Disk, code_to_errno, go_on, fill, empty, io_loop, io, sectsize}
use operating_system.Sfs.Blocks.{
  retried, rw_loop, rwblock, block_uio, wblock, sync_inode, synced, blocksize,
}
use operating_system.Sfs.Reads.{io_block}

module _ (d : Disk) (faults : ℕ → Bool) (current : Option ℕ) where
  buffer_write :
      (ptr block : ℕ) (m : Bytes)
      → uiomove faults current d.buf sectsize (block_uio ptr block writing) m
        ≡ done (ok, advance sectsize (block_uio ptr block writing), moved sectsize ptr d.buf m)
  unfolding block_uio mk_kuio space_ok transfer
  buffer_write ptr block m =
      uiomove_once faults current d.buf sectsize (block_uio ptr block writing) m _ refl
        (omega arith) (omega arith) (omega arith) refl

  module _ (ptr block : ℕ) (on_disk : block < d.nsect) (small : block < 2 ^ 22) (m m' : Bytes)
      (h h' : d.State) (val : ℕ)
      (e : d.operate writing block h (moved sectsize ptr d.buf m) ≡ (val, h', m')) where
    write_ok :
        code_to_errno val ≡ ok
        → io d faults current (block_uio ptr block writing) m h
          ≡ done (ok, advance sectsize (block_uio ptr block writing), m', h')
    unfolding io_loop fill go_on empty block_uio mk_kuio
    write_ok good =
        io_block d faults current ptr block writing m h on_disk small
        ∙ rw (buffer_write ptr block m, e, good) refl

    write_eio :
        code_to_errno val ≡ eio
        → io d faults current (block_uio ptr block writing) m h
          ≡ done (eio, advance sectsize (block_uio ptr block writing), m', h')
    unfolding io_loop fill go_on empty block_uio mk_kuio
    write_eio bad =
        io_block d faults current ptr block writing m h on_disk small
        ∙ rw (buffer_write ptr block m, e, bad) refl

    -- Nothing is left in the uio of a write, even one that failed: the device has nothing to do.
    write_again :
        io d faults current (advance sectsize (block_uio ptr block writing)) m' h'
        ≡ done (ok, advance sectsize (block_uio ptr block writing), m', h')
    unfolding io io_loop block_uio mk_kuio
    write_again =
        let sector : (word (block * blocksize) + sectsize) / sectsize ≡ block + 1 = omega arith in
        let aligned : ((word (block * blocksize) + sectsize) % sectsize == 0) ≡ true =
          ground arith in
        let inside : ltb d.nsect (block + 1 + 0) ≡ false = ground arith in
        rw (aligned, sector, inside) refl

    -- A write of a block operates the disk once, and reports no error, whether the hardware answers that
    -- it succeeded or that it failed by a media error.
    pub wblock_once :
        (code_to_errno val ≡ ok) ⊎ (code_to_errno val ≡ eio)
        → wblock d faults current ptr block m h
          ≡ done (ok, advance sectsize (block_uio ptr block writing), m', h')
    unfolding wblock rwblock rw_loop retried
    wblock_once (inl good) = rw (write_ok good) refl
    wblock_once (inr bad) = rw (write_eio bad, write_again) refl

    -- So an inode that is to be written back counts as clean afterwards, also if the write failed.
    pub sync_inode_once :
        (code_to_errno val ≡ ok) ⊎ (code_to_errno val ≡ eio)
        → sync_inode d faults current ptr block true m h ≡ done (ok, false, m', h')
    unfolding sync_inode synced
    sync_inode_once w = rw (wblock_once w) refl
