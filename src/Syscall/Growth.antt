-- ===== src/Syscall/Growth.antt =====
-- kern/arch/mips/mips/syscall.c: how `sbrk` counts the pages of the heap.
use native.Mathlib.Decide.{dec_lt}
use operating_system.Prelude.{
  ℕ, zero, suc, ◌+◌, ◌-◌, ◌*◌, ◌/◌, ◌^◌, ◌≤◌, ◌<◌, ◌≡◌, ◌⊎◌, inl, inr, refl, Bool, true, false,
  Option, some, arith, pos, negsuc, ltb, leb, ok, einval, page_size, word, done, Outcome-cases, inl,
  inr,
}
use operating_system.Coremap.{Vm}
use operating_system.AddressSpace.Defs.{Addrspace, no_tables, copy_tables, as_copy}
use operating_system.Syscall.Heap.{stack_base, count_pages, pages_for, slack, sbrk}

count_pages_cover :
    (fuel amount i : ℕ)
    → 0 < amount
    → amount < 2 ^ 31
    → amount < (fuel + 1) * page_size
    → (k : ℕ) × (count_pages fuel amount i ≡ i + k)
      × (k * page_size < amount)
      × (amount ≤ (k + 1) * page_size)
unfolding count_pages
count_pages_cover zero amount i some_amount small enough =
    (0, omega arith, omega arith, omega arith)
count_pages_cover (suc fuel) amount i some_amount small enough = elim (dec_lt page_size amount) [
  | yes more ↦
      let (k, e, lo, hi) =
        count_pages_cover fuel (amount - page_size) (i + 1) (omega arith) (omega arith)
          (omega arith) in
      (k + 1, ground (arith, e), omega arith, omega arith)
  | no last ↦ (0, ground arith, omega arith, omega arith)
]

-- An amount above 0 is rounded up to pages.
pages_for_cover :
    (amount : ℕ)
    → 0 < amount
    → amount < 2 ^ 31
    → (k : ℕ) × (pages_for amount ≡ k + 1)
      × (k * page_size < amount)
      × (amount ≤ (k + 1) * page_size)
unfolding pages_for
pages_for_cover amount some_amount small =
    let (k, e, lo, hi) =
      count_pages_cover (amount / page_size) amount 1 some_amount small (omega arith) in
    (k, omega (arith, e), lo, hi)

-- The pages cover the amount, and no page is added without need.
abbrev pub Grown : ℕ → ℕ → ℕ → Type 0
Grown amount before after =
    (before ≤ after)
    × (amount ≤ after * page_size)
    × ((after ≡ before) ⊎ (after * page_size < amount + page_size))

slack_lem :
    (space : Addrspace)
    → space.vtop3 < 2 ^ 31
    → space.npages3 * page_size < 2 ^ 31
    → slack space ≡ space.npages3 * page_size
slack_lem space top pages = omega arith

-- `sbrk` by an amount of 0 or more, in a heap whose top is at its base or above and whose pages are less
-- than 2^31 bytes, to a new top below the stack: it gives the old top, and moves the top by the amount. The
-- pages that it counts afterwards are as many as before, or as the amount alone needs, where those are
-- more: what of the old pages the heap has used already is not taken into account.
pub sbrk_grow :
    (amount : ℕ) (space : Addrspace)
    → space.vbase3 ≤ space.vtop3
    → space.vtop3 + amount < stack_base
    → space.npages3 * page_size < 2 ^ 31
    → (n : ℕ) × (sbrk amount space
        ≡ (ok, pos space.vtop3, record space { vtop3 = space.vtop3 + amount; npages3 = n }))
      × Grown amount space.npages3 n
unfolding sbrk
sbrk_grow amount space base below pages =
    let same = slack_lem space (omega arith) pages in
    let top : word (space.vtop3 + amount) ≡ space.vtop3 + amount = omega arith in
    let low : leb stack_base (word (space.vtop3 + amount)) ≡ false = ground (arith, top) in
    let high : ltb (word (space.vtop3 + amount)) space.vbase3 ≡ false = ground (arith, top) in
    elim (dec_lt (space.npages3 * page_size) amount) [
      | yes more ↦
          let (k, e, lo, hi) =
            pages_for_cover (amount - space.npages3 * page_size) (omega arith) (omega arith) in
          let rest : word (amount + 2 ^ 32 - slack space) ≡ amount - space.npages3 * page_size =
            omega (arith, same) in
          let test : leb amount (slack space) ≡ false = ground (arith, same) in
          let sum : word (space.npages3 + (k + 1)) ≡ space.npages3 + (k + 1) = omega arith in
          (
            space.npages3 + (k + 1),
            rw (low, high, test, rest, e, sum, top),
            (omega arith, omega arith, inr (omega arith)),
          )
      | no fits ↦
          let test : leb amount (slack space) ≡ true = ground (arith, same) in
          (space.npages3, rw (low, high, test, top), (omega arith, omega arith, inl refl))
    ]

-- An amount below 0: no round of the loop.
pages_for_negative : (amount : ℕ) → 2 ^ 31 ≤ amount → amount < 2 ^ 32 → pages_for amount ≡ 1
unfolding pages_for count_pages
pages_for_negative amount negative word_size = one (amount / page_size)
  where
    one : (fuel : ℕ) → count_pages fuel amount 1 ≡ 1
    one zero = refl
    one (suc fuel) = ground arith

-- `sbrk` by -d, where the top stays at the base or above: the top moves down by d, and the count of pages
-- goes up by one.
pub sbrk_shrink :
    (d : ℕ) (space : Addrspace)
    → 0 < d
    → space.vbase3 + d ≤ space.vtop3
    → space.vtop3 < stack_base
    → space.npages3 * page_size + d ≤ 2 ^ 31
    → sbrk (2 ^ 32 - d) space
      ≡ (ok, pos space.vtop3, record space { vtop3 = space.vtop3 - d; npages3 = space.npages3 + 1 })
unfolding sbrk
sbrk_shrink d space some_amount base below pages =
    let same = slack_lem space (omega arith) (omega arith) in
    let top : word (space.vtop3 + (2 ^ 32 - d)) ≡ space.vtop3 - d = omega arith in
    let low : leb stack_base (word (space.vtop3 + (2 ^ 32 - d))) ≡ false = ground (arith, top) in
    let high : ltb (word (space.vtop3 + (2 ^ 32 - d))) space.vbase3 ≡ false = ground (arith, top) in
    let test : leb (2 ^ 32 - d) (slack space) ≡ false = ground (arith, same) in
    let one =
      pages_for_negative (word (2 ^ 32 - d + 2 ^ 32 - slack space)) (omega (arith, same))
        (omega arith) in
    let sum : word (space.npages3 + 1) ≡ space.npages3 + 1 = omega arith in
    rw (low, high, test, one, sum, top)

copied_heap :
    (mem : Bool) (junk : Addrspace) (cur : Option ℕ) (old new : Addrspace) (m m' : Vm)
    → as_copy mem junk cur old m ≡ done (ok, some new, m')
    → (new.vbase3 ≡ old.vbase3) × (new.vtop3 ≡ 0)
unfolding as_copy
copied_heap false junk cur old new m m' copied = ground (arith, copied)
copied_heap true junk cur old new m m' copied =
    elim (Outcome-cases (copy_tables 1024 0 cur old.pt1 no_tables m)) [
      | inl ((pt, m1), e) ↦ ground (arith, e, copied)
      | inr e ↦ ground (arith, e, copied)
    ]

-- The heap of a child is copied without its top: an amount below the base of the parent's heap is refused.
pub sbrk-as_copy :
    (mem : Bool) (junk : Addrspace) (cur : Option ℕ) (old new : Addrspace) (m m' : Vm) (amount : ℕ)
    → as_copy mem junk cur old m ≡ done (ok, some new, m')
    → amount < old.vbase3
    → old.vbase3 ≤ stack_base
    → sbrk amount new ≡ (einval, negsuc 0, new)
unfolding sbrk
sbrk-as_copy mem junk cur old new m m' amount copied below base =
    let (low, top) = copied_heap mem junk cur old new m m' copied in
    let same : word (new.vtop3 + amount) ≡ amount = omega (arith, top) in
    let test : leb stack_base (word (new.vtop3 + amount)) ≡ false = ground (arith, same) in
    let test2 : ltb (word (new.vtop3 + amount)) new.vbase3 ≡ true = ground (arith, same, low) in
    rw (test, test2)
