-- ===== src/Syscall/Heap.antt =====
-- kern/arch/mips/mips/syscall.c: `sbrk`.
use operating_system.Prelude.{
  ℕ, zero, suc, ◌+◌, ◌-◌, ◌*◌, ◌/◌, ◌^◌, Bool, ◌&&◌, ℤ, pos, negsuc, ltb, leb, if◌then◌else◌, Code,
  ok, enomem, einval, page_size, word,
}
use operating_system.AddressSpace.Defs.{Addrspace, user_stack}

-- 512 pages below the top are the stack's.
abbrev pub stack_base : ℕ
stack_base = user_stack - 512 * page_size

-- A word above 0 as a signed number
abbrev pub is_positive : ℕ → Bool
is_positive a = ltb 0 a && ltb a (2 ^ 31)

-- `int i = 1; while (amount > PAGE_SIZE) { amount -= PAGE_SIZE; i++; }` on a signed word, with fuel
unfoldable pub count_pages : ℕ → ℕ → ℕ → ℕ
count_pages zero amount i = i
count_pages (suc fuel) amount i =
    let more = count_pages fuel (amount - page_size) (i + 1) in
    if is_positive amount && ltb page_size amount then more else i

-- Each round takes a page off, so as many rounds as there are pages in the amount are enough.
unfoldable pub pages_for : ℕ → ℕ
unfolding count_pages
pages_for amount = count_pages (amount / page_size) amount 1

-- `new_vtop3_aligned - as->as_vtop3`
abbrev pub slack : Addrspace → ℕ
slack space = word (word (space.vtop3 + word (space.npages3 * page_size)) + 2 ^ 32 - space.vtop3)

-- `sbrk`: the code, `*retval`, and the address space. The amount is a 32-bit word.
unfoldable pub sbrk : ℕ → Addrspace → Code × ℤ × Addrspace
unfolding pages_for
sbrk amount space =
    let top = word (space.vtop3 + amount) in
    let more = pages_for (word (amount + 2 ^ 32 - slack space)) in
    if leb stack_base top
    then (enomem, negsuc 0, space)
    else if ltb top space.vbase3
    then (einval, negsuc 0, space)
    else if leb amount (slack space)
    then (ok, pos space.vtop3, record space { vtop3 = top })
    else (ok, pos space.vtop3, record space { npages3 = word (space.npages3 + more); vtop3 = top })
