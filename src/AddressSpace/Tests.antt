-- ===== src/AddressSpace/Tests.antt =====
-- Address spaces and faults at concrete regions.
use operating_system.Prelude.{
  false, done, [], ◌∷◌, ok, ◌+◌, ◌*◌, ◌≤◌, ◌<◌, ◌≡◌, refl, none, arith, efault, true, page_frame,
}
use operating_system.AddressSpace.Defs.{Addrspace, no_tables, Region, region_pages}
use operating_system.AddressSpace.Faults.{Cpu, read, vm_fault, Load, segment2, settle, file_pages}
use operating_system.AddressSpace.Regions.{region_pages_cover}
use operating_system.AddressSpace.Paging.{level_after, vm_fault_level, segment2_overread}

abbrev cpu : Cpu
cpu = record {
  spl = 0;
  space = none;
  self = none;
  vm = record {
    booted = true;
    firstpaddr = 0;
    lastpaddr = 0;
    coremap = [];
    coremapsize = 0;
    ram = λ a. a;
  };
  tlb = [];
  loads = [];
}

region_pages_cover_example :
    (page_frame 0x400010 ≤ 0x400010)
    × (0x400010 + 5000 ≤ page_frame 0x400010 + region_pages 0x400010 5000 * 4096)
    × (page_frame 0x400010 + region_pages 0x400010 5000 * 4096 < 0x400010 + 5000 + 4096)
region_pages_cover_example = region_pages_cover 0x400010 5000 (omega arith)

vm_fault_level_example : cpu.spl ≡ level_after efault 0
unfolding vm_fault
vm_fault_level_example = vm_fault_level 0 read 0x400000 cpu {code = efault} {c' = cpu} refl

abbrev text_region : Region
text_region = record {
  vbase = 0x10000000;
  npages = 2;
  offset = 0x1000;
  executable = true;
  filesize = 5000;
}

-- The file has 904 bytes for the second page.
abbrev text_space : Addrspace
text_space = record {
  region1 = text_region;
  region2 = text_region;
  vbase3 = 0;
  vtop3 = 0;
  npages3 = 0;
  pt1 = no_tables;
  vnode = none;
}

segment2_overread_example :
    (l : Load) × (settle 0 0 0x10001000 text_space segment2 false true 0x5000 cpu
      ≡ done (ok, record cpu { loads = l ∷ []; spl = 0 }))
    × (l.vaddr ≡ 0x10001000)
    × (l.amount ≡ 4096)
unfolding file_pages
segment2_overread_example =
    segment2_overread 0 0 0x10001000 0x5000 text_space cpu (omega arith) (omega arith) (omega arith)
