-- ===== src/AddressSpace/Defs.antt =====
-- kern/vm/addrspace.c and kern/vm/vm.c: address spaces, their two-level page table, and page faults.
use operating_system.Prelude.{
  ℕ, zero, suc, ◌+◌, ◌-◌, ◌*◌, ◌/◌, ◌%◌, Bool, not, ◌&&◌, Option, none, some, ltb, leb, ◌==◌,
  if◌then◌else◌, Outcome, done, halt, ◌>>=◌, ◌>>◌, assert, Code, ok, enomem, eunimp, page_size,
  kseg0, word, kvaddr_to_paddr, page_frame,
}
use operating_system.Coremap.{Vm, pmalloc, alloc_kpages}

-- One of the two loaded regions of `struct addrspace`.
pub record Region : Type 0 where
  pub vbase : ℕ
  pub npages : ℕ
  pub offset : ℕ
  pub executable : Bool
  pub filesize : ℕ

-- A second-level table: a kernel address for each of 1024 pages, 0 for none.
abbrev pub Table : Type 0
Table = ℕ → ℕ

-- `struct addrspace`, less the fields that nothing reads (`as_pbase1`, `as_pbase2`, `as_pbase3`,
-- `as_stackpbase`, `as_stackvbase`). An entry of `pt1` is `none` for NULL.
pub record Addrspace : Type 0 where
  pub region1 : Region
  pub region2 : Region
  pub vbase3 : ℕ
  pub vtop3 : ℕ
  pub npages3 : ℕ
  pub pt1 : ℕ → Option Table
  pub vnode : Option ℕ

abbrev pub no_tables : ℕ → Option Table
no_tables _ = none

-- `as_create` on a block that holds `old`: offsets, sizes and marks are not initialised.
unfoldable pub as_create : Bool → Addrspace → Option Addrspace
as_create mem old =
    let r1 : Region = record old.region1 { vbase = 0; npages = 0 } in
    let r2 : Region = record old.region2 { vbase = 0; npages = 0 } in
    if mem
    then some (record {
      region1 = r1;
      region2 = r2;
      vbase3 = 0;
      vtop3 = 0;
      npages3 = 0;
      pt1 = no_tables;
      vnode = none;
    })
    else none

-- The pages of a region of `sz` bytes at `vaddr`: the size grows by the offset of the base in its
-- page, and is rounded up.
unfoldable pub region_pages : ℕ → ℕ → ℕ
region_pages vaddr sz =
    page_frame (word (word (sz + vaddr % page_size) + page_size - 1)) / page_size

unfoldable pub as_define_region : Addrspace → ℕ → ℕ → ℕ → ℕ → Option ℕ → Bool → Code × Addrspace
unfolding region_pages
as_define_region space vaddr sz offset filesize v executable =
    let r : Region = record {
      vbase = page_frame vaddr;
      npages = region_pages vaddr sz;
      offset = offset;
      executable = executable;
      filesize = filesize;
    } in
    let space1 : Addrspace = record space {
      vnode = elim space.vnode [ none ↦ v | some w ↦ some w ];
    } in
    if space.region1.vbase == 0
    then (ok, record space1 { region1 = r })
    else if space.region2.vbase == 0
    then (ok, record space1 { region2 = r })
    else (eunimp, space1)

unfoldable pub as_prepare_load : Addrspace → Code
as_prepare_load space = ok

-- The heap begins, empty, behind the second region.
unfoldable pub as_complete_load : Addrspace → Code × Addrspace
as_complete_load space =
    let top = word (space.region2.vbase + space.region2.npages * page_size) in
    (ok, record space { vbase3 = top; vtop3 = top })

abbrev pub user_stack : ℕ
user_stack = kseg0

unfoldable pub as_define_stack : Addrspace → Code × ℕ
as_define_stack space = (ok, user_stack)

-- The table with one entry written, and the table of tables with one table written.
abbrev pub write : Table → ℕ → ℕ → Table
write t i v j = if i == j then v else t j

abbrev pub write_table : (ℕ → Option Table) → ℕ → Table → ℕ → Option Table
write_table p i t j = if i == j then some t else p j

-- `memcpy` of one page between two kernel addresses
abbrev pub copy_page : ℕ → ℕ → (ℕ → ℕ) → ℕ → ℕ
copy_page to from ram a =
    if leb (kvaddr_to_paddr to) a && ltb a (kvaddr_to_paddr to + page_size)
    then ram (kvaddr_to_paddr from + (a - kvaddr_to_paddr to))
    else ram a

-- The inner loop of `as_copy`, with `n` entries left from `j`: a page, and its contents, for each one
-- that the old table has. A copy to the address 0 is a fault.
unfoldable pub copy_table : ℕ → ℕ → Option ℕ → Table → Table → Vm → Outcome (Table × Vm)
copy_table zero j cur old new m = done (new, m)
copy_table (suc n) j cur old new m =
    let step = (do
      r ← pmalloc cur m
      let (v, m') = r
      if v == 0
          then halt
          else copy_table n (j + 1) cur old (write new j v)
              (record m' { ram = copy_page v (old j) m'.ram })) in
    let rest = copy_table n (j + 1) cur old new m in if old j == 0 then rest else step

-- The outer loop, over the tables; a new table is a page of the kernel's.
unfoldable pub copy_tables :
    ℕ
    → ℕ
    → Option ℕ
    → (ℕ → Option Table)
    → (ℕ → Option Table)
    → Vm
    → Outcome ((ℕ → Option Table) × Vm)
unfolding copy_table
copy_tables zero i cur old new m = done (new, m)
copy_tables (suc n) i cur old new m =
    let rest = copy_tables n (i + 1) cur old new m in
    elim (old i) [
      | none ↦ rest
      | some t ↦ do
        r ← alloc_kpages 1 cur m
        let (page, m1) = r
        assert (not (page == 0))
        s ← copy_table 1024 0 cur t (λ _. 0) m1
        let (t', m2) = s
        copy_tables n (i + 1) cur old (write_table new i t') m2
    ]

-- `as_copy` with the memory for the structure, on a block that holds `junk`. The sizes in the file and
-- the top of the heap are not copied.
unfoldable pub as_copy :
    Bool → Addrspace → Option ℕ → Addrspace → Vm → Outcome (Code × Option Addrspace × Vm)
unfolding as_create copy_tables
as_copy mem junk cur old m = elim (as_create mem junk) [
  | none ↦ done (enomem, none, m)
  | some new ↦ do
    r ← copy_tables 1024 0 cur old.pt1 new.pt1 m
    let (pt, m') = r
    let r1 : Region = record old.region1 { filesize = new.region1.filesize }
    let r2 : Region = record old.region2 { filesize = new.region2.filesize }
    done (
      ok,
      some (record new {
        region1 = r1;
        region2 = r2;
        vbase3 = old.vbase3;
        npages3 = old.npages3;
        pt1 = pt;
        vnode = old.vnode;
      }),
      m',
    )
]
