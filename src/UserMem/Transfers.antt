-- ===== src/UserMem/Transfers.antt =====
-- kern/userprog/uio.c: what `uiomove` moves.
use operating_system.Prelude.{
  ℕ, zero, suc, ◌+◌, ◌-◌, ◌≤◌, ◌<◌, ◌≡◌, refl, Bool, true, false, Option, arith, ltb, ◌==◌, lt→ltb,
  if◌then◌else◌, done, ok,
}
use operating_system.UserMem.Defs.{Bytes, user_top}
use operating_system.UserMem.Copies.{moved, NoFault, copyin-moved, copyout-moved}
use operating_system.UserMem.Uio.{
  userspace, Direction, reading, writing, Uio, space_ok, transfer, advance, unless_error,
  uiomove_loop, uiomove,
}

uiomove_loop_end :
    (faults : ℕ → Bool) (rounds ptr : ℕ) (u : Uio) (m : Bytes)
    → uiomove_loop faults rounds ptr 0 u m ≡ done (ok, u, m)
unfolding uiomove_loop
uiomove_loop_end faults zero ptr u m = refl
uiomove_loop_end faults (suc rounds) ptr u m = refl

uiomove_loop_round :
    (faults : ℕ → Bool) (rounds ptr n : ℕ) (u : Uio) (m m' : Bytes)
    → 0 < n
    → n ≤ u.len
    → 0 < u.resid
    → transfer faults u.segflg u.rw ptr u.base n m ≡ (ok, m')
    → uiomove_loop faults (suc rounds) ptr n u m ≡ done (ok, advance n u, m')
unfolding unless_error uiomove_loop
uiomove_loop_round faults rounds ptr n u m m' some_bytes fits left e =
    let size : (if ltb n u.len then n else u.len) ≡ n = ground arith in
    let not_zero : (n == 0) ≡ false = ground arith in
    let nothing : n - n ≡ 0 = omega arith in
    rw (uiomove_loop, lt→ltb 0 n some_bytes, lt→ltb 0 u.resid left, size, not_zero, e, nothing)
      (uiomove_loop_end faults rounds (ptr + n) (advance n u) m')

pub uiomove_once :
    (faults : ℕ → Bool) (current : Option ℕ) (ptr n : ℕ) (u : Uio) (m m' : Bytes)
    → space_ok current u ≡ true
    → 0 < n
    → n ≤ u.len
    → 0 < u.resid
    → transfer faults u.segflg u.rw ptr u.base n m ≡ (ok, m')
    → uiomove faults current ptr n u m ≡ done (ok, advance n u, m')
unfolding uiomove
uiomove_once faults current ptr zero u m m' s some_bytes fits left e = absurd (omega arith)
uiomove_once faults current ptr (suc n) u m m' s some_bytes fits left e =
    rw s (uiomove_loop_round faults n ptr (suc n) u m m' some_bytes fits left e)

-- The ends of a transfer: from the kernel's `ptr` to the buffer, or back.
abbrev pub carried : Direction → ℕ → ℕ → ℕ → Bytes → Bytes
carried reading n ptr base m = moved n ptr base m
carried writing n ptr base m = moved n base ptr m

-- `uiomove` of no more bytes than are left, for a buffer of the running process that lies within
-- userspace, where nothing faults: the bytes are carried over, no other byte changes, and the uio has
-- moved on by as many.
pub uiomove-carried :
    (faults : ℕ → Bool) (current : Option ℕ) (ptr n : ℕ) (u : Uio) (m : Bytes)
    → u.segflg ≡ userspace
    → space_ok current u ≡ true
    → 0 < n
    → n ≤ u.len
    → n ≤ u.resid
    → u.base + n ≤ user_top
    → user_top ≤ ptr
    → NoFault faults n u.base
    → NoFault faults n ptr
    → uiomove faults current ptr n u m ≡ done (ok, advance n u, carried u.rw n ptr u.base m)
unfolding transfer
uiomove-carried faults current ptr n u m seg s some_bytes fits left inside kernel fu fk =
    uiomove_once faults current ptr n u m (carried u.rw n ptr u.base m) s some_bytes fits
      (omega arith) (rw seg (by_direction u.rw))
  where
    by_direction :
        (d : Direction)
        → transfer faults userspace d ptr u.base n m ≡ (ok, carried d n ptr u.base m)
    by_direction reading = copyout-moved faults ptr u.base n m some_bytes inside kernel fk fu
    by_direction writing = copyin-moved faults u.base ptr n m some_bytes inside kernel fu fk
