-- ===== src/AddressSpace/Paging.antt =====
-- kern/vm/vm.c: what a page fault does to the page table, to the interrupt level, and which part of
-- the file it asks for.
use operating_system.Prelude.{
  spl_high, ℕ, zero, suc, ◌+◌, ◌++◌, [], ◌∷◌, ◌*◌, ◌≤◌, ◌<◌, ◌≡◌, refl, Bool, true, false, Option,
  none, some, arith, done, >>=-eq-done, Code, ok, enomem, page_size,
}
use operating_system.AddressSpace.Defs.{Region, Addrspace}
use operating_system.AddressSpace.Faults.{
  FaultType, read, write_access, readonly, other, Cpu, Load, fault_handler, page_amount, file_pages,
  nth_page2, segment_load, enter_tlb, load_or_enter, Place, segment1, segment2, nowhere, settle,
  handled, place, resolve, vm_fault,
}

-- The level of interrupts that `vm_fault` leaves: the one it found, except when it is out of memory.
abbrev pub level_after : Code → ℕ → ℕ
level_after enomem old = spl_high
level_after _ old = old

enter_tlb_level :
    (random old a paddr : ℕ) (c : Cpu) {code : Code} {c' : Cpu}
    → enter_tlb random old a paddr c ≡ done (code, c')
    → (code ≡ ok) × (c'.spl ≡ old)
unfolding enter_tlb
enter_tlb_level random old a paddr c h = ground arith

load_or_enter_level :
    (random old a : ℕ) (new : Bool) (l : Load) (paddr : ℕ) (c : Cpu) {code : Code} {c' : Cpu}
    → load_or_enter random old a new l paddr c ≡ done (code, c')
    → (code ≡ ok) × (c'.spl ≡ old)
unfolding load_or_enter
load_or_enter_level random old a true l paddr c h = ground arith
load_or_enter_level random old a false l paddr c h = enter_tlb_level random old a paddr c h

at_ok : {code : Code} {n old : ℕ} → (code ≡ ok) × (n ≡ old) → n ≡ level_after code old
at_ok (e, f) = rw e f

settle_level :
    (random old a : ℕ) (s : Addrspace) (p : Place) (oom new : Bool) (paddr : ℕ) (c : Cpu)
    {code : Code} {c' : Cpu}
    → c.spl ≡ spl_high
    → settle random old a s p oom new paddr c ≡ done (code, c')
    → c'.spl ≡ level_after code old
unfolding settle
settle_level random old a s p true new paddr c up h = ground arith
settle_level random old a s segment1 false new paddr c up h =
    at_ok (load_or_enter_level random old a new _ paddr c h)
settle_level random old a s segment2 false new paddr c up h =
    at_ok (load_or_enter_level random old a new _ paddr c h)
settle_level random old a s _ false new paddr c up h =
    at_ok (enter_tlb_level random old a paddr c h)

handled_level :
    (random old a : ℕ) (s : Addrspace) (p : Place) (c : Cpu) {code : Code} {c' : Cpu}
    → c.spl ≡ spl_high
    → handled random old a s p c ≡ done (code, c')
    → c'.spl ≡ level_after code old
unfolding handled
handled_level random old a s nowhere c up h = ground arith
handled_level random old a s p c up h =
    let (r, _, k) = >>=-eq-done (fault_handler c.self a s.pt1 c.vm) _ h in
    settle_level random old a s p r.2 r.1 r.0 _ up k

resolve_level :
    (random old a : ℕ) (o : Option Addrspace) (c : Cpu) {code : Code} {c' : Cpu}
    → c.spl ≡ spl_high
    → resolve random old a o c ≡ done (code, c')
    → c'.spl ≡ level_after code old
unfolding resolve
resolve_level random old a none c up h = ground arith
resolve_level random old a (some s) c up h = handled_level random old a s (place s a) c up h

-- `vm_fault` leaves the interrupt level as it found it, except when it is out of memory: then the
-- level stays high.
pub vm_fault_level :
    (random : ℕ) (t : FaultType) (addr : ℕ) (c : Cpu) {code : Code} {c' : Cpu}
    → vm_fault random t addr c ≡ done (code, c')
    → c'.spl ≡ level_after code c.spl
unfolding vm_fault
vm_fault_level random readonly addr c h = ground arith
vm_fault_level random other addr c h = ground arith
vm_fault_level random read addr c h = resolve_level random c.spl _ c.space _ refl h
vm_fault_level random write_access addr c h = resolve_level random c.spl _ c.space _ refl h

-- The bytes that are asked for at the first `n` pages of the first region
abbrev pub asked : ℕ → ℕ → ℕ
asked zero filesize = 0
asked (suc n) filesize = asked n filesize + page_amount (suc n) filesize

-- In the second region the page is counted from the address 0. Where the base lies above as many pages as
-- the file fills there, and those are a page or more: a fault at a new page of the region, whichever it is,
-- asks the file for a whole page, also at the last one, of which the file may have less.
pub segment2_overread :
    (random old a paddr : ℕ) (s : Addrspace) (c : Cpu)
    → s.region2.vbase ≤ a
    → file_pages s.region2.filesize * page_size ≤ s.region2.vbase
    → page_size ≤ s.region2.filesize
    → (l : Load) × (settle random old a s segment2 false true paddr c
        ≡ done (ok, record c { loads = c.loads ++ (l ∷ []); spl = old }))
      × (l.vaddr ≡ a)
      × (l.amount ≡ page_size)
unfolding settle
segment2_overread random old a paddr s c inside above big = (
  segment_load s.region2 (nth_page2 s.region2 a) a,
  refl,
  refl,
  whole s.region2 a inside above big,
)
  where
    whole :
        (r : Region) (a : ℕ)
        → r.vbase ≤ a
        → file_pages r.filesize * page_size ≤ r.vbase
        → page_size ≤ r.filesize
        → (segment_load r (nth_page2 r a) a).amount ≡ page_size
    whole r a inside above big =
        let past : file_pages r.filesize < nth_page2 r a = omega (arith, inside, above) in
        ground (arith, past, big)
