-- ===== src/UserMem/Uio.antt =====
-- kern/userprog/uio.c: `uiomove` and its companions.
use operating_system.Prelude.{
  ℕ, zero, suc, ◌+◌, ◌-◌, ◌^◌, Bool, true, false, not, ◌&&◌, Option, none, some, ltb, ◌==◌,
  if◌then◌else◌, Outcome, done, halt, ◌>>=◌, ◌>>◌, assert, Code, ok, word,
}
use operating_system.UserMem.Defs.{Bytes, copyin, copyout}
use operating_system.UserMem.Copies.{moved}

-- `enum uio_seg` and `enum uio_rw`
pub data Segment : Type 0 where
  userspace userispace sysspace : Segment

pub data Direction : Type 0 where
  reading writing : Direction

-- `struct uio`, with its one buffer: the address and the length of `uio_iovec`.
pub record Uio : Type 0 where
  pub base : ℕ
  pub len : ℕ
  pub offset : ℕ
  pub resid : ℕ
  pub segflg : Segment
  pub rw : Direction
  pub space : Option ℕ

abbrev pub same_space : Option ℕ → Option ℕ → Bool
same_space none none = true
same_space none (some b) = false
same_space (some a) none = false
same_space (some a) (some b) = a == b

-- The assertions on `uio_space`, with the address space of the running thread
unfoldable pub space_ok : Option ℕ → Uio → Bool
space_ok current u = elim u.segflg [
  | userspace ↦ same_space u.space current
  | userispace ↦ same_space u.space current
  | sysspace ↦ same_space u.space none
]

-- The switch on `uio_segflg`: `size` bytes between the kernel's `ptr` and the buffer.
unfoldable pub transfer : (ℕ → Bool) → Segment → Direction → ℕ → ℕ → ℕ → Bytes → Code × Bytes
transfer faults sysspace reading ptr base size m = (ok, moved size ptr base m)
transfer faults sysspace writing ptr base size m = (ok, moved size base ptr m)
transfer faults userspace reading ptr base size m = copyout faults ptr base size m
transfer faults userspace writing ptr base size m = copyin faults base ptr size m
transfer faults userispace reading ptr base size m = copyout faults ptr base size m
transfer faults userispace writing ptr base size m = copyin faults base ptr size m

abbrev pub advance : ℕ → Uio → Uio
advance size u = record u {
  base = u.base + size;
  len = u.len - size;
  resid = word (u.resid + 2 ^ 32 - size);
  offset = u.offset + size;
}

-- `if (result) return result;`
unfoldable pub unless_error :
    Uio → (Bytes → Outcome (Code × Uio × Bytes)) → Code × Bytes → Outcome (Code × Uio × Bytes)
unless_error u next (ok, m) = next m
unless_error u next (c, m) = done (c, u, m)

-- The loop of `uiomove`. A round moves a byte at least.
unfoldable pub uiomove_loop : (ℕ → Bool) → ℕ → ℕ → ℕ → Uio → Bytes → Outcome (Code × Uio × Bytes)
uiomove_loop faults zero ptr n u m = if ltb 0 n && ltb 0 u.resid then halt else done (ok, u, m)
uiomove_loop faults (suc rounds) ptr n u m =
    let size = if ltb n u.len then n else u.len in
    let next =
      λ (m' : Bytes). uiomove_loop faults rounds (ptr + size) (n - size) (advance size u) m' in
    let round =
      assert (not (size == 0))
      >> unless_error u next (transfer faults u.segflg u.rw ptr u.base size m) in
    if ltb 0 n && ltb 0 u.resid then round else done (ok, u, m)

unfoldable pub uiomove : (ℕ → Bool) → Option ℕ → ℕ → ℕ → Uio → Bytes → Outcome (Code × Uio × Bytes)
unfolding uiomove_loop
uiomove faults current ptr n u m = assert (space_ok current u) >> uiomove_loop faults n ptr n u m

abbrev pub is_reading : Direction → Bool
is_reading reading = true
is_reading writing = false

unfoldable pub after_zeros :
    (Uio → Bytes → Outcome (Code × Uio × Bytes)) → Code × Uio × Bytes → Outcome (Code × Uio × Bytes)
after_zeros next (ok, u, m) = next u m
after_zeros next (c, u, m) = done (c, u, m)

-- `uiomovezeros`, where the sixteen zeros stand at `zero_buf`
unfoldable pub zeros_loop :
    (ℕ → Bool) → Option ℕ → ℕ → ℕ → ℕ → Uio → Bytes → Outcome (Code × Uio × Bytes)
zeros_loop faults current zero_buf zero n u m = if ltb 0 n then halt else done (ok, u, m)
zeros_loop faults current zero_buf (suc rounds) n u m =
    let amt = if ltb n 16 then n else 16 in
    let next =
      λ (u' : Uio) (m' : Bytes). zeros_loop faults current zero_buf rounds (n - amt) u' m' in
    let round = (uiomove faults current zero_buf amt u m >>= after_zeros next) in
    if ltb 0 n then round else done (ok, u, m)

unfoldable pub uiomovezeros :
    (ℕ → Bool) → Option ℕ → ℕ → ℕ → Uio → Bytes → Outcome (Code × Uio × Bytes)
unfolding zeros_loop
uiomovezeros faults current zero_buf n u m =
    assert (is_reading u.rw) >> zeros_loop faults current zero_buf n n u m

-- `mk_kuio`
unfoldable pub mk_kuio : ℕ → ℕ → ℕ → Direction → Uio
mk_kuio kbuf len position direction = record {
  base = kbuf;
  len = len;
  offset = position;
  resid = len;
  segflg = sysspace;
  rw = direction;
  space = none;
}
