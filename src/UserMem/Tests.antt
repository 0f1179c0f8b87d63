-- ===== src/UserMem/Tests.antt =====
-- Runs of the copies, and their theorems at concrete blocks.
use operating_system.Prelude.{
  ℕ, ◌≡◌, refl, false, some, arith, ◌==◌, if◌then◌else◌, Bool, done, ok, efault, inr,
}
use operating_system.UserMem.Defs.{Bytes, copycheck, copyin, copyinstr, got, too_far}
use operating_system.UserMem.Copies.{moved, copycheck_lem, copyin-moved, copyin_refused}
use operating_system.UserMem.Uio.{Uio, userspace, reading, uiomove, advance, space_ok}
use operating_system.UserMem.Transfers.{carried, uiomove-carried}

-- The byte at an address is the address's last byte, and nothing faults.
abbrev bytes : Bytes
bytes a = if a == 0x1003 then 0 else 7

abbrev no_faults : ℕ → Bool
no_faults a = false

-- A text of three bytes, with its end.
copies_text : (copyinstr no_faults 0x1000 0x80001000 100 bytes).0 ≡ got 4
unfolding copyinstr copycheck
copies_text = refl

-- A text that runs into the kernel.
runs_out : (copyinstr no_faults 0x7ffffffe 0x80001000 100 bytes).0 ≡ too_far
unfolding copyinstr copycheck
runs_out = refl

empty_refused : copyin no_faults 0x1000 0x80001000 0 bytes ≡ (efault, bytes)
empty_refused =
    copyin_refused no_faults 0x1000 0x80001000 0 bytes (omega arith) (omega arith) (inr refl)

copycheck_lem_example : copycheck 0x7ffff000 0x2000 ≡ (ok, 0x1000)
copycheck_lem_example = copycheck_lem 0x7ffff000 0x2000 (omega arith) (omega arith) (omega arith)

copyin-moved_example :
    copyin no_faults 0x1000 0x80001000 4 bytes ≡ (ok, moved 4 0x1000 0x80001000 bytes)
copyin-moved_example =
    copyin-moved no_faults 0x1000 0x80001000 4 bytes (omega arith) (omega arith) (omega arith)
      (λ a lo hi. refl) (λ a lo hi. refl)

-- Ten bytes are left of a buffer at 0x1000.
abbrev buffer : Uio
buffer = record {
  base = 0x1000;
  len = 10;
  offset = 20;
  resid = 10;
  segflg = userspace;
  rw = reading;
  space = some 5;
}

uiomove-carried_example :
    uiomove no_faults (some 5) 0x80001000 4 buffer bytes
    ≡ done (ok, advance 4 buffer, carried reading 4 0x80001000 0x1000 bytes)
unfolding space_ok
uiomove-carried_example =
    uiomove-carried no_faults (some 5) 0x80001000 4 buffer bytes refl refl (omega arith)
      (omega arith) (omega arith) (omega arith) (omega arith) (λ a lo hi. refl) (λ a lo hi. refl)
