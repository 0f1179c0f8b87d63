-- ===== src/Sfs/Disk.antt =====
-- kern/dev/lamebus/lhd.c: the disk driver. A run is that of the thread that holds `lh_clear`, and the wait
-- for `lh_done` is part of the hardware's operation.
use Prim.Native.Nat.{bit_and}
use operating_system.Prelude.{
  ℕ, zero, suc, ◌+◌, ◌/◌, ◌%◌, Bool, not, ◌||◌, Option, ltb, ◌==◌, if◌then◌else◌, Outcome, done,
  ◌>>=◌, Code, ok, einval, eio, eagain,
}
use operating_system.UserMem.Defs.{Bytes}
use operating_system.UserMem.Uio.{Direction, reading, writing, Uio, uiomove}

-- The disk behind the bus: an operation on a sector, with its buffer at an address of the memory, ends with
-- a value of the status register.
pub record Disk : Type 1 where
  pub State : Type 0
  pub nsect : ℕ
  pub buf : ℕ
  pub operate : Direction → ℕ → State → Bytes → ℕ × State × Bytes

abbrev pub sectsize : ℕ
sectsize = 512

-- `lhd_code_to_errno`
unfoldable pub code_to_errno : ℕ → Code
code_to_errno code =
    let state = bit_and code 29 in
    if state == 4 then ok else if state == 12 then einval else if state == 20 then eio else eagain

module _ (d : Disk) (faults : ℕ → Bool) (current : Option ℕ) where
  abbrev pub Result : Type 0
  Result = Outcome (Code × Uio × Bytes × d.State)

  -- `if (result) return result;`
  unfoldable pub go_on : d.State → (Uio → Bytes → Result) → Code × Uio × Bytes → Result
  go_on h next (ok, u, m) = next u m
  go_on h next (c, u, m) = done (c, u, m, h)

  -- The transfers to the buffer before a write, and from it after a read that succeeded
  unfoldable pub fill : Direction → Uio → Bytes → Outcome (Code × Uio × Bytes)
  fill reading u m = done (ok, u, m)
  fill writing u m = uiomove faults current d.buf sectsize u m

  unfoldable pub empty : Direction → Code → Uio → Bytes → Outcome (Code × Uio × Bytes)
  empty reading ok u m = uiomove faults current d.buf sectsize u m
  empty reading c u m = done (c, u, m)
  empty writing c u m = done (c, u, m)

  -- The loop of `lhd_io` from a sector on, with `n` sectors left
  unfoldable pub io_loop : ℕ → ℕ → Uio → Bytes → d.State → Result
  unfolding go_on fill empty code_to_errno
  io_loop zero sector u m h = done (ok, u, m, h)
  io_loop (suc n) sector u m h =
      fill u.rw u m
      >>= go_on h (λ u1 m1.
        let (val, h', m2) = d.operate u.rw sector h m1 in
        (empty u.rw (code_to_errno val) u1 m2
          >>= go_on h' (λ u2 m3. io_loop n (sector + 1) u2 m3 h')))

  -- `lhd_io`
  unfoldable pub io : Uio → Bytes → d.State → Result
  unfolding io_loop
  io u m h =
      let sector = u.offset / sectsize in
      let len = u.resid / sectsize in
      if not (u.offset % sectsize == 0) || not (u.resid % sectsize == 0)
      then done (einval, u, m, h)
      else if ltb d.nsect (sector + len)
      then done (einval, u, m, h)
      else io_loop len sector u m h
