-- ===== src/Sfs/Tests.antt =====
-- Runs of the disk's operations, and the theorems at concrete disks.
use operating_system.Prelude.{ℕ, zero, suc, ◌≡◌, refl, Bool, false, none, arith, done, ok, inr}
use operating_system.UserMem.Defs.{Bytes}
use operating_system.UserMem.Uio.{Direction, reading, writing, advance}
use operating_system.UserMem.Copies.{moved}
use operating_system.Sfs.Disk.{Disk, sectsize, code_to_errno}
use operating_system.Sfs.Blocks.{block_uio, rblock, wblock}
use operating_system.Sfs.Reads.{Reads, success, failure, rblock-Reads}
use operating_system.Sfs.Writes.{wblock_once}

-- Eight sectors, of which nothing can be read or written as long as the state counts down to 0.
abbrev flaky_operate : Direction → ℕ → ℕ → Bytes → ℕ × ℕ × Bytes
flaky_operate dir sector zero m = (4, 0, m)
flaky_operate dir sector (suc n) m = (20, n, m)

abbrev flaky : Disk
flaky = record { State = ℕ; nsect = 8; buf = 4096; operate = flaky_operate }

never : ℕ → Bool
never a = false

empty_memory : Bytes
empty_memory a = 0

-- Two errors, then the data.
two_errors : Reads flaky 5 2 empty_memory 2 empty_memory 0
unfolding code_to_errno
two_errors = failure 20 refl refl (failure 20 refl refl (success 4 refl refl))

rblock-Reads_example :
    rblock flaky never none 512 5 empty_memory 2
    ≡ done (ok, advance sectsize (block_uio 512 5 reading), moved sectsize 4096 512 empty_memory, 0)
rblock-Reads_example =
    rblock-Reads flaky never none 512 5 (omega arith) (omega arith) 2 (omega arith) two_errors

-- The write of block 5 fails, and the disk works from then on: nobody writes the block.
wblock_once_example :
    wblock flaky never none 512 5 empty_memory 1
    ≡ done (ok, advance sectsize (block_uio 512 5 writing), moved sectsize 512 4096 empty_memory, 0)
unfolding code_to_errno
wblock_once_example =
    wblock_once flaky never none 512 5 (omega arith) (omega arith) empty_memory
      (moved sectsize 512 4096 empty_memory) 1 0 20 refl (inr refl)
