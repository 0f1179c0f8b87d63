-- ===== src/UserMem/Defs.antt =====
-- The functions of kern/lib/copyinout.c and kern/userprog/uio.c.
use operating_system.Prelude.{
  ℕ, zero, suc, ◌+◌, ◌-◌, ◌^◌, Bool, true, false, ◌||◌, ltb, leb, ◌==◌, if◌then◌else◌, Code, ok,
  efault, word,
}

-- Bytes by their addresses.
abbrev pub Bytes : Type 0
Bytes = ℕ → ℕ

-- `USERTOP`: processes have the addresses below.
abbrev pub user_top : ℕ
user_top = 2 ^ 31

-- `copycheck`: the code, and `*stoplen`, on 32-bit words
unfoldable pub copycheck : ℕ → ℕ → Code × ℕ
copycheck bot len =
    let top = word (bot + len + (2 ^ 32 - 1)) in
    if ltb top bot
    then (efault, len)
    else if leb user_top bot
    then (efault, len)
    else if leb user_top top
    then (ok, user_top - bot)
    else (ok, len)

-- `memcpy` from `src` to `dst`, byte by byte: the first byte of the process that `faults` stops it, by
-- `copyfail`. False, with what was copied before, is the jump back to `setjmp`.
unfoldable pub memcpy : (ℕ → Bool) → ℕ → ℕ → ℕ → Bytes → Bool × Bytes
memcpy faults zero src dst m = (true, m)
memcpy faults (suc n) src dst m =
    let rest = memcpy faults n (src + 1) (dst + 1) (λ a. if a == dst then m src else m a) in
    if faults src || faults dst then (false, m) else rest

abbrev pub as_code : Bool × Bytes → Code × Bytes
as_code (true, m) = (ok, m)
as_code (false, m) = (efault, m)

-- A block that is checked at the process's end, `user`: a part of one is refused.
unfoldable pub passed : ℕ → Bytes → Code × Bytes → Code × ℕ → Code × Bytes
passed len m copied (ok, stoplen) = if stoplen == len then copied else (efault, m)
passed len m copied (c, stoplen) = (c, m)

-- `copyin(usersrc, dest, len)` and `copyout(src, userdest, len)`
unfoldable pub copyin : (ℕ → Bool) → ℕ → ℕ → ℕ → Bytes → Code × Bytes
unfolding passed
copyin faults usersrc dest len m =
    passed len m (as_code (memcpy faults len usersrc dest m)) (copycheck usersrc len)

unfoldable pub copyout : (ℕ → Bool) → ℕ → ℕ → ℕ → Bytes → Code × Bytes
unfolding passed
copyout faults src userdest len m =
    passed len m (as_code (memcpy faults len src userdest m)) (copycheck userdest len)

-- Why `copystr` ends: by the end of the text, with its length, at the end of userspace, at the end of the
-- room, or by a fault.
pub data Ending : Type 0 where
  got : ℕ → Ending
  too_far too_long fault : Ending

-- The loop of `copystr` from the index `i`, with `n` rounds up to the smaller of the two lengths; `stops`
-- says that `stoplen` is below `maxlen`.
unfoldable pub copystr_loop : (ℕ → Bool) → Bool → ℕ → ℕ → ℕ → ℕ → Bytes → Ending × Bytes
copystr_loop faults stops zero i src dst m = (if stops then too_far else too_long, m)
copystr_loop faults stops (suc n) i src dst m =
    let m' : Bytes = λ a. if a == dst + i then m (src + i) else m a in
    let rest = copystr_loop faults stops n (i + 1) src dst m' in
    let next = if m' (src + i) == 0 then (got (i + 1), m') else rest in
    if faults (src + i) || faults (dst + i) then (fault, m) else next

-- `copystr(dest, src, maxlen, stoplen, gotlen)`
unfoldable pub copystr : (ℕ → Bool) → ℕ → ℕ → ℕ → ℕ → Bytes → Ending × Bytes
unfolding copystr_loop
copystr faults dst src maxlen stoplen m =
    copystr_loop faults (ltb stoplen maxlen) (if ltb stoplen maxlen then stoplen else maxlen) 0 src
      dst m

-- `copyinstr` and `copyoutstr`: a text may run up to the end of userspace.
unfoldable pub checked_str : Bytes → (ℕ → Ending × Bytes) → Code × ℕ → Ending × Bytes
checked_str m copy (ok, stoplen) = copy stoplen
checked_str m copy (c, stoplen) = (fault, m)

unfoldable pub copyinstr : (ℕ → Bool) → ℕ → ℕ → ℕ → Bytes → Ending × Bytes
unfolding checked_str copystr
copyinstr faults usersrc dest len m =
    checked_str m (λ stoplen. copystr faults dest usersrc len stoplen m) (copycheck usersrc len)

unfoldable pub copyoutstr : (ℕ → Bool) → ℕ → ℕ → ℕ → Bytes → Ending × Bytes
unfolding checked_str copystr
copyoutstr faults src userdest len m =
    checked_str m (λ stoplen. copystr faults userdest src len stoplen m) (copycheck userdest len)
