-- ===== src/UserMem/Copies.antt =====
-- kern/lib/copyinout.c: what a copy checks, and what it moves.
use mathlib.Core.Path.{fun_ext}
use native.Mathlib.Decide.{dec_lt, ℕ_discrete}
use operating_system.Prelude.{
  ℕ, zero, suc, ◌+◌, ◌-◌, ◌^◌, ◌≤◌, ◌<◌, ◌≡◌, ◌≢◌, ◌⊎◌, inl, inr, ap, ◌∙◌, Bool, true, false, ◌&&◌,
  arith, ltb, leb, ◌==◌, if◌then◌else◌, ok, efault, word,
}
use operating_system.UserMem.Defs.{Bytes, user_top, copycheck, memcpy, copyin, copyout}

-- `copycheck` on a block that is not empty: one that ends within userspace passes whole, one that begins
-- there and ends within the 32 bits passes up to the end of userspace, and any other is refused.
pub copycheck_lem :
    (bot len : ℕ)
    → bot < 2 ^ 32
    → len < 2 ^ 32
    → 0 < len
    → copycheck bot len ≡ (
        if leb (bot + len) user_top
        then (ok, len)
        else if ltb bot user_top && leb (bot + len) (2 ^ 32)
        then (ok, user_top - bot)
        else (efault, len))
unfolding copycheck
copycheck_lem bot len b l some_bytes = ground arith

-- The bytes after a block has moved.
abbrev pub moved : ℕ → ℕ → ℕ → Bytes → Bytes
moved n src dst m = λ a. if leb dst a && ltb a (dst + n) then m (src + (a - dst)) else m a

-- No byte of the block faults.
abbrev pub NoFault : (ℕ → Bool) → ℕ → ℕ → Type 0
NoFault faults n src = (a : ℕ) → src ≤ a → a < src + n → faults a ≡ false

abbrev pub Apart : ℕ → ℕ → ℕ → Type 0
Apart n src dst = (src + n ≤ dst) ⊎ (dst + n ≤ src)

moved_step :
    (n src dst : ℕ) (m : Bytes) (a : ℕ)
    → Apart (suc n) src dst
    → moved n (src + 1) (dst + 1) (λ b. if b == dst then m src else m b) a
      ≡ moved (suc n) src dst m a
moved_step n src dst m a apart = elim (ℕ_discrete a dst) [
  | yes here ↦ (let e : m (src + (a - dst)) ≡ m src = ap m (omega arith) in ground (arith, here, e))
  | no other ↦ elim (dec_lt a dst) [
    | yes low ↦ ground (arith, other, low)
    | no high ↦
        let e : m (src + 1 + (a - (dst + 1))) ≡ m (src + (a - dst)) = ap m (omega arith) in
        elim (dec_lt a (dst + suc n)) [
          | yes in_block ↦
              let clear : (src + 1 + (a - (dst + 1)) == dst) ≡ false =
                ground (arith, other, apart) in
              ground (arith, other, high, in_block, e, clear)
          | no past ↦ ground (arith, other, high, past)
        ]
  ]
]

pub memcpy-moved :
    (faults : ℕ → Bool) (n src dst : ℕ) (m : Bytes)
    → NoFault faults n src
    → NoFault faults n dst
    → Apart n src dst
    → memcpy faults n src dst m ≡ (true, moved n src dst m)
unfolding memcpy
memcpy-moved faults zero src dst m fs fd apart = ap (λ f. (true, f)) (fun_ext (λ a. ground arith))
memcpy-moved faults (suc n) src dst m fs fd apart =
    let here = fs src (omega arith) (omega arith) in
    let there = fd dst (omega arith) (omega arith) in
    rw (here, there)
      (memcpy-moved faults n (src + 1) (dst + 1) (λ b. if b == dst then m src else m b)
          (λ a lo hi. fs a (omega arith) (omega arith))
          (λ a lo hi. fd a (omega arith) (omega arith)) (ground (arith, apart))
        ∙ ap (λ f. (true, f)) (fun_ext (λ a. moved_step n src dst m a apart)))

-- `copyin` of a block of the process that lies within userspace, none of which faults, to a block of the
-- kernel: it gives the bytes, and changes no other.
pub copyin-moved :
    (faults : ℕ → Bool) (usersrc dest len : ℕ) (m : Bytes)
    → 0 < len
    → usersrc + len ≤ user_top
    → user_top ≤ dest
    → NoFault faults len usersrc
    → NoFault faults len dest
    → copyin faults usersrc dest len m ≡ (ok, moved len usersrc dest m)
unfolding copyin
copyin-moved faults usersrc dest len m some_bytes fits kernel fs fd =
    let passes : copycheck usersrc len ≡ (ok, len) =
      copycheck_lem usersrc len (omega arith) (omega arith) some_bytes ∙ ground arith in
    let same : (len == len) ≡ true = ground arith in
    rw (passes, same, memcpy-moved faults len usersrc dest m fs fd (inl (omega arith)))

pub copyout-moved :
    (faults : ℕ → Bool) (src userdest len : ℕ) (m : Bytes)
    → 0 < len
    → userdest + len ≤ user_top
    → user_top ≤ src
    → NoFault faults len src
    → NoFault faults len userdest
    → copyout faults src userdest len m ≡ (ok, moved len src userdest m)
unfolding copyout
copyout-moved faults src userdest len m some_bytes fits kernel fs fd =
    let passes : copycheck userdest len ≡ (ok, len) =
      copycheck_lem userdest len (omega arith) (omega arith) some_bytes ∙ ground arith in
    let same : (len == len) ≡ true = ground arith in
    rw (passes, same, memcpy-moved faults len src userdest m fs fd (inr (omega arith)))

-- How a block that reaches past userspace, or is empty, fails.
copycheck_short :
    (bot len : ℕ)
    → bot < 2 ^ 32
    → len < 2 ^ 32
    → (user_top < bot + len) ⊎ (len ≡ 0)
    → ((copycheck bot len ≡ (ok, user_top - bot)) × (user_top - bot ≢ len))
      ⊎ (copycheck bot len ≡ (efault, len))
unfolding copycheck
copycheck_short bot len b l bad = elim (dec_lt bot user_top) [
  | yes low ↦ elim (dec_lt (word (bot + len + (2 ^ 32 - 1))) bot) [
    | yes wraps ↦ inr (ground arith)
    | no inside ↦ inl (ground (arith, bad), ground (arith, bad))
  ]
  | no high ↦ inr (ground arith)
]

-- A block that reaches past userspace, or is empty, is refused, and no byte changes.
pub copyin_refused :
    (faults : ℕ → Bool) (usersrc dest len : ℕ) (m : Bytes)
    → usersrc < 2 ^ 32
    → len < 2 ^ 32
    → (user_top < usersrc + len) ⊎ (len ≡ 0)
    → copyin faults usersrc dest len m ≡ (efault, m)
unfolding copyin
copyin_refused faults usersrc dest len m u l bad = elim (copycheck_short usersrc len u l bad) [
  | inl (e, ne) ↦
      (let test : (user_top - usersrc == len) ≡ false = ground (arith, ne) in rw (e, test))
  | inr e ↦ rw e
]
