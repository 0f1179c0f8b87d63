-- ===== src/Sfs/Reads.antt =====
-- kern/fs/sfs/sfs_io.c and kern/dev/lamebus/lhd.c: reads of blocks, with the retries.
use operating_system.Prelude.{
  ℕ, zero, suc, ◌+◌, ◌*◌, ◌/◌, ◌%◌, ◌==◌, ltb, false, ◌^◌, ◌≤◌, ◌<◌, ◌≡◌, refl, ◌∙◌, Bool, true,
  Option, arith, done, ok, eio, word,
}
use operating_system.UserMem.Defs.{Bytes}
use operating_system.UserMem.Uio.{Direction, reading, advance, space_ok, transfer, uiomove, mk_kuio}
use operating_system.UserMem.Copies.{moved}
use operating_system.UserMem.Transfers.{uiomove_once}
use operating_system.Sfs.Disk.{Disk, code_to_errno, go_on, fill, empty, io_loop, io, sectsize}
use operating_system.Sfs.Blocks.{retried, given_up, rw_loop, rwblock, block_uio, rblock, blocksize}

module _ (d : Disk) (faults : ℕ → Bool) (current : Option ℕ) where
  -- A block of the disk is one sector of it.
  pub io_block :
      (ptr block : ℕ) (dir : Direction) (m : Bytes) (h : d.State)
      → block < d.nsect
      → block < 2 ^ 22
      → io d faults current (block_uio ptr block dir) m h
        ≡ io_loop d faults current 1 block (block_uio ptr block dir) m h
  unfolding io block_uio mk_kuio
  io_block ptr block dir m h on_disk small =
      let sector : word (block * blocksize) / sectsize ≡ block = omega arith in
      let aligned : (word (block * blocksize) % sectsize == 0) ≡ true = ground arith in
      let inside : ltb d.nsect (block + 1) ≡ false = ground arith in
      rw (io, aligned, sector, inside) refl

  -- The transfer between the driver's buffer and the block's.
  pub buffer_read :
      (ptr block : ℕ) (m : Bytes)
      → uiomove faults current d.buf sectsize (block_uio ptr block reading) m
        ≡ done (ok, advance sectsize (block_uio ptr block reading), moved sectsize d.buf ptr m)
  unfolding block_uio mk_kuio space_ok transfer
  buffer_read ptr block m =
      uiomove_once faults current d.buf sectsize (block_uio ptr block reading) m _ refl
        (omega arith) (omega arith) (omega arith) refl

  module _ (ptr block : ℕ) (on_disk : block < d.nsect) (small : block < 2 ^ 22) where
    read_ok :
        (m m' : Bytes) (h h' : d.State) (val : ℕ)
        → d.operate reading block h m ≡ (val, h', m')
        → code_to_errno val ≡ ok
        → io d faults current (block_uio ptr block reading) m h
          ≡ done
              (ok, advance sectsize (block_uio ptr block reading), moved sectsize d.buf ptr m', h')
    unfolding io_loop fill go_on empty block_uio mk_kuio
    read_ok m m' h h' val e good =
        io_block ptr block reading m h on_disk small ∙ rw (e, good, buffer_read ptr block m') refl

    read_eio :
        (m m' : Bytes) (h h' : d.State) (val : ℕ)
        → d.operate reading block h m ≡ (val, h', m')
        → code_to_errno val ≡ eio
        → io d faults current (block_uio ptr block reading) m h
          ≡ done (eio, block_uio ptr block reading, m', h')
    unfolding io_loop fill go_on empty block_uio mk_kuio
    read_eio m m' h h' val e bad = io_block ptr block reading m h on_disk small ∙ rw (e, bad) refl

-- The hardware's answers to a read of a block: `k` media errors, then one success.
pub data Reads (d : Disk) (block : ℕ) : ℕ → Bytes → d.State → Bytes → d.State → Type 0 where
  success :
      {m m' : Bytes} {h h' : d.State} (val : ℕ)
      → d.operate reading block h m ≡ (val, h', m')
      → code_to_errno val ≡ ok
      → Reads d block 0 m h m' h'
  failure :
      {k : ℕ} {m m1 m' : Bytes} {h h1 h' : d.State} (val : ℕ)
      → d.operate reading block h m ≡ (val, h1, m1)
      → code_to_errno val ≡ eio
      → Reads d block k m1 h1 m' h'
      → Reads d block (suc k) m h m' h'

-- Only media errors, `k` of them.
pub data Fails (d : Disk) (block : ℕ) : ℕ → Bytes → d.State → Bytes → d.State → Type 0 where
  nothing : {m : Bytes} {h : d.State} → Fails d block 0 m h m h
  failed :
      {k : ℕ} {m m1 m' : Bytes} {h h1 h' : d.State} (val : ℕ)
      → d.operate reading block h m ≡ (val, h1, m1)
      → code_to_errno val ≡ eio
      → Fails d block k m1 h1 m' h'
      → Fails d block (suc k) m h m' h'

module _ (d : Disk) (faults : ℕ → Bool) (current : Option ℕ) where
  module _ (ptr block : ℕ) (on_disk : block < d.nsect) (small : block < 2 ^ 22) where
    rw_loop-Reads :
        (n k : ℕ) {m m' : Bytes} {h h' : d.State}
        → k ≤ n
        → Reads d block k m h m' h'
        → rw_loop d faults current n (block_uio ptr block reading) m h
          ≡ done
              (ok, advance sectsize (block_uio ptr block reading), moved sectsize d.buf ptr m', h')
    unfolding rw_loop retried given_up
    rw_loop-Reads zero k le (success val e good) =
        rw (read_ok d faults current ptr block on_disk small _ _ _ _ val e good) refl
    rw_loop-Reads (suc n) k le (success val e good) =
        rw (read_ok d faults current ptr block on_disk small _ _ _ _ val e good) refl
    rw_loop-Reads zero k le (failure val e bad rest) = absurd (omega arith)
    rw_loop-Reads (suc n) (suc k) le (failure val e bad rest) =
        rw (read_eio d faults current ptr block on_disk small _ _ _ _ val e bad)
          (rw_loop-Reads n k (omega arith) rest)

    rw_loop-Fails :
        (n : ℕ) {m m' : Bytes} {h h' : d.State}
        → Fails d block (suc n) m h m' h'
        → rw_loop d faults current n (block_uio ptr block reading) m h
          ≡ done (eio, block_uio ptr block reading, m', h')
    unfolding rw_loop retried given_up
    rw_loop-Fails zero (failed val e bad nothing) =
        rw (read_eio d faults current ptr block on_disk small _ _ _ _ val e bad) refl
    rw_loop-Fails (suc n) (failed val e bad rest) =
        rw (read_eio d faults current ptr block on_disk small _ _ _ _ val e bad)
          (rw_loop-Fails n rest)

    -- A read of a block, of which up to ten attempts fail by media errors before one succeeds: the data of
    -- the one that succeeds stand at the address, and no error is reported.
    pub rblock-Reads :
        (k : ℕ) {m m' : Bytes} {h h' : d.State}
        → k ≤ 10
        → Reads d block k m h m' h'
        → rblock d faults current ptr block m h
          ≡ done
              (ok, advance sectsize (block_uio ptr block reading), moved sectsize d.buf ptr m', h')
    unfolding rblock rwblock
    rblock-Reads k le r = rw_loop-Reads 10 k le r

    -- A read of a block that fails by a media error eleven times is given up, with EIO.
    pub rblock-Fails :
        {m m' : Bytes} {h h' : d.State}
        → Fails d block 11 m h m' h'
        → rblock d faults current ptr block m h ≡ done (eio, block_uio ptr block reading, m', h')
    unfolding rblock rwblock
    rblock-Fails r = rw_loop-Fails 10 r
