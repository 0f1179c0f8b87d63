-- ===== src/AddressSpace/Regions.antt =====
-- kern/vm/addrspace.c: the pages of a region cover it, and no page more than is needed.
use operating_system.Prelude.{ℕ, ◌+◌, ◌*◌, ◌%◌, ◌^◌, ◌≤◌, ◌<◌, arith, page_size, page_frame}
use operating_system.AddressSpace.Defs.{region_pages}

-- For a region whose size and offset in its first page, with one page more, are at most 2^32: its
-- pages begin at or below it, end at or above its end, and end less than a page after it.
pub region_pages_cover :
    (vaddr sz : ℕ)
    → vaddr % page_size + sz + page_size ≤ 2 ^ 32
    → (page_frame vaddr ≤ vaddr)
      × (vaddr + sz ≤ page_frame vaddr + region_pages vaddr sz * page_size)
      × (page_frame vaddr + region_pages vaddr sz * page_size < vaddr + sz + page_size)
unfolding region_pages
region_pages_cover vaddr sz h = omega arith
