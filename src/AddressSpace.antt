-- ===== src/AddressSpace.antt =====
-- kern/vm/addrspace.c and kern/vm/vm.c: address spaces and page faults.
pub mod Defs
mod Faults
pub mod Regions
pub mod Paging
mod Tests
pub use Defs.{Addrspace}
