-- ===== src/Coremap/Defs.antt =====
-- kern/vm/vm.c, the allocator of physical pages: `vm_bootstrap`, `alloc_kpages`, `pmalloc` and
-- `free_kpages`, with `ram_stealmem` of kern/arch/mips/mips/ram.c.
use operating_system.Prelude.{
  ℕ, zero, suc, ◌+◌, ◌-◌, ◌*◌, Bool, true, false, Option, none, some, List, ltb, ◌==◌,
  if◌then◌else◌, get_elem?, set, Outcome, done, halt, ◌>>=◌, modify, page_size, word,
  paddr_to_kvaddr, kvaddr_to_paddr, zero_page,
}

-- `struct cm_entry`; `thread_as` is the address space of the owner, `none` for NULL.
pub record Entry : Type 0 where
  pub pa : ℕ
  pub state : ℕ
  pub follower : ℕ
  pub york : ℕ
  pub thread_as : Option ℕ

-- The globals: `boott`, the two bounds of ram.c, the block that `coremap` points to (entries past
-- `coremapsize` hold what the block held before), `coremapsize`, and physical memory by address.
pub record Vm : Type 0 where
  pub booted : Bool
  pub firstpaddr : ℕ
  pub lastpaddr : ℕ
  pub coremap : List Entry
  pub coremapsize : ℕ
  pub ram : ℕ → ℕ

-- `ram_stealmem`: 0 for failure.
unfoldable pub stealmem : ℕ → Vm → ℕ × Vm
stealmem npages m =
    let size = word (npages * page_size) in
    if ltb m.lastpaddr (word (m.firstpaddr + size))
    then (0, m)
    else (m.firstpaddr, record m { firstpaddr = word (m.firstpaddr + size) })

-- The first entry from `i` on with state 0, with `n` entries left; past the block there is none to
-- read.
unfoldable pub first_free : ℕ → ℕ → List Entry → Outcome (Option ℕ)
first_free zero i es = done none
first_free (suc n) i es =
    let rest = first_free n (i + 1) es in
    elim (get_elem? es i) [ none ↦ halt | some e ↦ if e.state == 0 then done (some i) else rest ]

abbrev pub pa_at : List Entry → ℕ → ℕ
pa_at es i = elim (get_elem? es i) [ none ↦ 0 | some e ↦ e.pa ]

-- One page for the owner `york`, 'k' in `alloc_kpages(1)` and 'u' in `pmalloc`: the entry is
-- claimed and the page cleared.
unfoldable pub claim : ℕ → Option ℕ → ℕ → Vm → Vm
claim york cur i m = record m {
  coremap = modify m.coremap i (λ e. record e { state = 1; york = york; thread_as = cur });
  ram = zero_page (pa_at m.coremap i) m.ram;
}

unfoldable pub take_page : ℕ → Option ℕ → Vm → Outcome (ℕ × Vm)
unfolding first_free claim
take_page york cur m = do
  found ← first_free m.coremapsize 0 m.coremap
  elim found [
    | none ↦ done (0, m)
    | some i ↦ done (paddr_to_kvaddr (pa_at m.coremap i), claim york cur i m)
  ]

unfoldable pub pmalloc : Option ℕ → Vm → Outcome (ℕ × Vm)
unfolding take_page
pmalloc cur m = take_page b'u' cur m

-- `for (j=1; j<npages; j++) if (coremap[i+j].state == 1) not_enough_space = 1;` from the entry `i`
-- on, with `n` entries left: true if none is in use.
unfoldable pub run_free : ℕ → ℕ → List Entry → Outcome Bool
run_free zero i es = done true
run_free (suc n) i es = do
  later ← run_free n (i + 1) es
  elim (get_elem? es i) [ none ↦ halt | some e ↦ done (if e.state == 1 then false else later) ]

-- The outer loop of `alloc_kpages(npages)`, `npages > 1`, with `n` entries left.
unfoldable pub first_run : ℕ → ℕ → ℕ → List Entry → Outcome (Option ℕ)
unfolding run_free
first_run npages zero i es = done none
first_run npages (suc n) i es =
    let rest = first_run npages n (i + 1) es in
    let here =
      (run_free (npages - 1) (i + 1) es >>= λ enough. if enough then done (some i) else rest) in
    elim (get_elem? es i) [ none ↦ halt | some e ↦ if e.state == 0 then here else rest ]

-- The loop that marks `n` entries from `i + k` on; it sets the owner of the entry `i` alone.
unfoldable pub claim_run : ℕ → ℕ → ℕ → Option ℕ → Vm → Vm
claim_run zero k i cur m = m
claim_run (suc n) k i cur m =
    let marked = modify m.coremap (i + k) (λ e. record e { state = 1; york = b'k' }) in
    claim_run n (k + 1) i cur (record m {
      coremap = modify marked i (λ e. record e { thread_as = cur });
      ram = zero_page (pa_at m.coremap (i + k)) m.ram;
    })

-- The run of `npages` from `i` on: marked, with the count of followers in its first entry.
unfoldable pub take_run : ℕ → ℕ → Option ℕ → Vm → Vm
unfolding claim_run
take_run npages i cur m =
    let m' = claim_run npages 0 i cur m in
    record m' { coremap = modify m'.coremap i (λ e. record e { follower = npages - 1 }) }

-- `alloc_kpages`: the address, or 0. After the boot a call for no page returns no value at all.
unfoldable pub alloc_kpages : ℕ → Option ℕ → Vm → Outcome (ℕ × Vm)
unfolding stealmem take_page first_run take_run
alloc_kpages npages cur m =
    if m.booted
    then (if npages == 1
        then take_page b'k' cur m
        else if ltb 1 npages
        then (first_run npages m.coremapsize 0 m.coremap >>= λ found. elim found [
          | none ↦ done (0, m)
          | some i ↦ done (paddr_to_kvaddr (pa_at m.coremap i), take_run npages i cur m)
        ])
        else halt)
    else (let (pa, m') = stealmem npages m in done (if pa == 0 then 0 else paddr_to_kvaddr pa, m'))

abbrev pub release : Entry → Entry
release e = record e { state = 0; york = b'n'; thread_as = none }

-- `for (j=0; j<=coremap[i].follower; j++)`, with `n` rounds left: the state of entry `i + j`, the
-- owner of entry `i`, and the page of entry `i`, in each round.
unfoldable pub release_run : ℕ → ℕ → ℕ → Vm → Outcome Vm
release_run zero j i m = done m
release_run (suc n) j i m =
    let freed = modify m.coremap (i + j) (λ e. record e { state = 0 }) in
    let rest = release_run n (j + 1) i (record m {
      coremap = modify freed i (λ e. record e { york = b'n'; thread_as = none });
      ram = zero_page (pa_at m.coremap i) m.ram;
    }) in
    elim (get_elem? m.coremap (i + j)) [ none ↦ halt | some e ↦ rest ]

abbrev pub reset_follower : ℕ → Vm → Outcome Vm
reset_follower i m =
    done (record m { coremap = modify m.coremap i (λ e. record e { follower = 0 }) })

-- The body of the loop of `free_kpages` at the entry that holds the page.
unfoldable pub free_at : ℕ → Entry → Vm → Outcome Vm
unfolding release_run
free_at i e m =
    if e.follower == 0
    then done (record m { coremap = modify m.coremap i release })
    else (release_run (e.follower + 1) 0 i m >>= reset_follower i)

unfoldable pub find_page : ℕ → ℕ → ℕ → List Entry → Outcome (Option (ℕ × Entry))
find_page pa zero i es = done none
find_page pa (suc n) i es =
    let rest = find_page pa n (i + 1) es in
    elim (get_elem? es i) [ none ↦ halt | some e ↦ if e.pa == pa then done (some (i, e)) else rest ]

unfoldable pub free_kpages : ℕ → Vm → Outcome Vm
unfolding find_page free_at
free_kpages addr m = do
  found ← find_page (kvaddr_to_paddr addr) m.coremapsize 0 m.coremap
  elim found [ none ↦ done m | some (i, e) ↦ free_at i e m ]

-- The loop of `vm_bootstrap`, from the entry `i` on, with the address of the page that was taken
-- last: it takes every page that is left, an entry each. A write past the block is a fault.
unfoldable pub fill : ℕ → ℕ → ℕ × Vm → Outcome (ℕ × Vm)
unfolding alloc_kpages
fill zero i (va, m) = halt
fill (suc fuel) i (va, m) =
    let entry : Entry = record {
      pa = kvaddr_to_paddr va;
      state = 0;
      follower = 0;
      york = b'n';
      thread_as = none;
    } in
    let rest =
      (alloc_kpages 1 none (record m { coremap = set m.coremap i entry }) >>= fill fuel (i + 1)) in
    if va == 0 then done (i, m) else elim (get_elem? m.coremap i) [ none ↦ halt | some _ ↦ rest ]

-- `vm_bootstrap`. The two calls `kmalloc(PAGE_SIZE)` come to `alloc_kpages(1)`; `block` is what the
-- first page holds, read as entries.
unfoldable pub bootstrap : ℕ → List Entry → Vm → Outcome Vm
unfolding fill
bootstrap fuel block m = do
  (table, m1) ← alloc_kpages 1 none (record m { booted = false })
  first ← alloc_kpages 1 none (record m1 { coremap = block })
  (n, m2) ← fill fuel 0 first
  (v, m3) ← alloc_kpages 1 none (record m2 { coremapsize = n; booted = true })
  done m3
