-- ===== src/AddressSpace/Faults.antt =====
-- kern/vm/vm.c: `fault_handler`, `load_page` and `vm_fault`.
use Prim.Native.Nat.{bit_and, bit_or}
use operating_system.Prelude.{
  ℕ, ◌+◌, ◌-◌, ◌*◌, ◌/◌, ◌%◌, ◌^◌, Bool, true, false, not, ◌&&◌, Option, none, some, List, [], ◌∷◌,
  ◌++◌, ltb, leb, ◌==◌, if◌then◌else◌, set, Outcome, done, ◌>>=◌, ◌>>◌, assert, Code, ok, einval,
  efault, enomem, page_size, word, kvaddr_to_paddr, page_frame, spl_high,
}
use operating_system.Coremap.{Vm, pmalloc, alloc_kpages}
use operating_system.AddressSpace.Defs.{Region, Addrspace, Table, write, write_table, user_stack}

-- The fault types of kern/include/vm.h; `other` is any other number.
pub data FaultType : Type 0 where
  read write_access readonly other : FaultType

-- A request of `load_page` to the file: `amount` bytes from `offset` to `vaddr`, then `zeros` zeros.
pub record Load : Type 0 where
  pub offset : ℕ
  pub vaddr : ℕ
  pub amount : ℕ
  pub zeros : ℕ
  pub executable : Bool

-- What a fault sees and changes: the level of `splhigh`, the current address space and its address,
-- the pages, the TLB as pairs of its two words, and the requests made so far.
pub record Cpu : Type 0 where
  pub spl : ℕ
  pub space : Option Addrspace
  pub self : Option ℕ
  pub vm : Vm
  pub tlb : List (ℕ × ℕ)
  pub loads : List Load

-- Bits 22 to 31, and 12 to 21, of an address.
abbrev pub index1 : ℕ → ℕ
index1 a = a / 2 ^ 22

abbrev pub index2 : ℕ → ℕ
index2 a = a / 2 ^ 12 % 1024

-- The kernel address that the two tables have for a page: 0 for none.
abbrev pub lookup : (ℕ → Option Table) → ℕ → ℕ
lookup pt a = elim (pt (index1 a)) [ none ↦ 0 | some t ↦ t (index2 a) ]

-- The new table of the first branch is a page of the kernel's, which `kmalloc` takes from
-- `alloc_kpages`; a write at 0 is a fault.
unfoldable pub second_level : Option ℕ → (ℕ → Option Table) → ℕ → Vm → Outcome (Table × Vm)
second_level cur pt a m = elim (pt (index1 a)) [
  | none ↦ do
    r ← alloc_kpages 1 cur m
    let (page, m') = r
    assert (not (page == 0))
    done (λ _. 0, m')
  | some t ↦ done (t, m)
]

-- `fault_handler`: the physical page, `indicator`, `out_of_memory`, and the tables and pages after.
unfoldable pub fault_handler :
    Option ℕ → ℕ → (ℕ → Option Table) → Vm → Outcome (ℕ × Bool × Bool × (ℕ → Option Table) × Vm)
unfolding second_level
fault_handler cur a pt m =
    if not (lookup pt a == 0) then done (kvaddr_to_paddr (lookup pt a), false, false, pt, m) else do
      r ← second_level cur pt a m
      let (t, m1) = r
      s ← pmalloc cur m1
      let (v, m2) = s
      let pt' = write_table pt (index1 a) (write t (index2 a) v)
      done (kvaddr_to_paddr v, true, v == 0, pt', m2)

-- How many pages of the file the region fills, and the amount that is asked for at a page: for the
-- first region the page is counted from its base, for the second from the address 0.
unfoldable pub file_pages : ℕ → ℕ
file_pages filesize = filesize / page_size + (if filesize % page_size == 0 then 0 else 1)

unfoldable pub page_amount : ℕ → ℕ → ℕ
unfolding file_pages
page_amount nth filesize =
    if ltb nth (file_pages filesize)
    then page_size
    else if nth == file_pages filesize
    then filesize % page_size
    else filesize

abbrev pub nth_page1 : Region → ℕ → ℕ
nth_page1 r a = word (a + 2 ^ 32 - r.vbase) / page_size + 1

abbrev pub nth_page2 : Region → ℕ → ℕ
nth_page2 r a = a / page_size + 1

-- `load_page`: no more than the page is read, and the rest of the page is cleared. What the read
-- returns goes back to `vm_fault`, which drops it.
unfoldable pub load_page : ℕ → ℕ → ℕ → ℕ → Bool → Load
load_page offset vaddr memsize filesize executable =
    let amount = if ltb memsize filesize then memsize else filesize in
    record {
      offset = offset;
      vaddr = vaddr;
      amount = amount;
      zeros = memsize - amount;
      executable = executable;
    }

unfoldable pub segment_load : Region → ℕ → ℕ → Load
unfolding load_page page_amount
segment_load r nth a =
    load_page (word (r.offset + a + 2 ^ 32 - page_frame r.vbase)) a page_size
      (page_amount nth r.filesize) r.executable

abbrev pub tlblo_valid : ℕ
tlblo_valid = 0x200

abbrev pub tlblo_dirty : ℕ
tlblo_dirty = 0x400

abbrev pub is_valid : ℕ × ℕ → Bool
is_valid e = not (bit_and e.1 tlblo_valid == 0)

-- The loop over the TLB: the first slot that is not valid is written; `none` if there is none.
unfoldable pub tlb_fill : ℕ × ℕ → List (ℕ × ℕ) → Option (List (ℕ × ℕ))
tlb_fill entry [] = none
tlb_fill entry (e ∷ rest) =
    let later : Option (List (ℕ × ℕ)) = elim (tlb_fill entry rest) [
      | none ↦ none
      | some l ↦ some (e ∷ l)
    ] in
    if is_valid e then later else some (entry ∷ rest)

-- With no slot left, the processor picks one (`random`).
unfoldable pub tlb_load : ℕ → ℕ × ℕ → List (ℕ × ℕ) → List (ℕ × ℕ)
unfolding tlb_fill
tlb_load random entry tlb = elim (tlb_fill entry tlb) [ none ↦ set tlb random entry | some l ↦ l ]

-- Where an address lies: the order of the tests is that of the code.
pub data Place : Type 0 where
  segment1 segment2 stack heap nowhere : Place

abbrev pub top_of : Region → ℕ
top_of r = word (r.vbase + r.npages * page_size)

abbrev pub stack_base : ℕ
stack_base = user_stack - 512 * page_size

unfoldable pub place : Addrspace → ℕ → Place
place s a =
    if leb s.region1.vbase a && ltb a (top_of s.region1)
    then segment1
    else if leb s.region2.vbase a && ltb a (top_of s.region2)
    then segment2
    else if ltb stack_base a && ltb a user_stack
    then stack
    else if leb s.vbase3 a && ltb a s.vtop3
    then heap
    else nowhere

-- `assert((paddr & PAGE_FRAME)==paddr)`, then the TLB, then `splx(spl)`.
unfoldable pub enter_tlb : ℕ → ℕ → ℕ → ℕ → Cpu → Outcome (Code × Cpu)
unfolding tlb_load
enter_tlb random old a paddr c = do
  assert (page_frame paddr == paddr)
  let elo = bit_or (bit_or paddr tlblo_dirty) tlblo_valid
  done (ok, record c { tlb = tlb_load random (a, elo) c.tlb; spl = old })

-- A new page of a loaded region is read from the file, and does not enter the TLB.
unfoldable pub load_or_enter : ℕ → ℕ → ℕ → Bool → Load → ℕ → Cpu → Outcome (Code × Cpu)
unfolding enter_tlb
load_or_enter random old a new load paddr c =
    if new
    then done (ok, record c { loads = c.loads ++ (load ∷ []); spl = old })
    else enter_tlb random old a paddr c

-- What follows the handler: the return of ENOMEM leaves without `splx`.
unfoldable pub settle : ℕ → ℕ → ℕ → Addrspace → Place → Bool → Bool → ℕ → Cpu → Outcome (Code × Cpu)
unfolding load_or_enter segment_load
settle random old a s p true new paddr c = done (enomem, c)
settle random old a s segment1 false new paddr c =
    load_or_enter random old a new (segment_load s.region1 (nth_page1 s.region1 a) a) paddr c
settle random old a s segment2 false new paddr c =
    load_or_enter random old a new (segment_load s.region2 (nth_page2 s.region2 a) a) paddr c
settle random old a s p false new paddr c = enter_tlb random old a paddr c

unfoldable pub handled : ℕ → ℕ → ℕ → Addrspace → Place → Cpu → Outcome (Code × Cpu)
unfolding fault_handler settle
handled random old a s nowhere c = done (efault, record c { spl = old })
handled random old a s p c = do
  r ← fault_handler c.self a s.pt1 c.vm
  let (paddr, new, out_of_memory, pt, m) = r
  let c' : Cpu = record c { space = some (record s { pt1 = pt }); vm = m }
  settle random old a s p out_of_memory new paddr c'

-- With no address space the fault is refused.
unfoldable pub resolve : ℕ → ℕ → ℕ → Option Addrspace → Cpu → Outcome (Code × Cpu)
unfolding handled place
resolve random old a none c = done (efault, record c { spl = old })
resolve random old a (some s) c = handled random old a s (place s a) c

-- `random` is the slot that the processor would pick for `TLB_Random`.
unfoldable pub vm_fault : ℕ → FaultType → ℕ → Cpu → Outcome (Code × Cpu)
unfolding resolve
vm_fault random readonly addr c = done (efault, c)
vm_fault random other addr c = done (einval, c)
vm_fault random read addr c =
    resolve random c.spl (page_frame addr) c.space (record c { spl = spl_high })
vm_fault random write_access addr c =
    resolve random c.spl (page_frame addr) c.space (record c { spl = spl_high })
