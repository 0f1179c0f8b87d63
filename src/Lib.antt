-- ===== src/Lib.antt =====
-- OS/161 kernel (os161/kern): the core of the kernel, from its data structures up to threads,
-- page faults, system calls and the blocks of files.
--
-- The program's parts, and the files that model them. Paths are from the repository's root.
-- - Prelude: shared notation and lemmas. Errors has Outcome, the result of a call into the kernel:
--   done with a value, or halt, which is a failed assert, a panic, or a read of memory that was
--   never written. The codes of os161/kern/include/kern/errno.h are values. Memory has the address
--   macros of os161/kern/arch/mips/include/vm.h and the tables that are changed in place.
-- - Array: os161/kern/lib/array.c. The record Array is the struct array, with the block as a list
--   of optional pointers; create, preallocate, setsize, getguy, setguy, add and remove are the
--   functions array_create and so on. Array.Holding says that an array holds a list.
-- - Queue: os161/kern/lib/queue.c, the ring of pointers. The record Queue is the struct queue;
--   addtail, remhead, grow and so on are q_addtail, q_remhead, q_grow and so on.
-- - Bitmap: os161/kern/lib/bitmap.c. The record Bitmap is the struct bitmap, with its words as bytes;
--   create, alloc, mark, unmark and isset are bitmap_create and so on.
-- - Coremap: os161/kern/vm/vm.c (vm_bootstrap, alloc_kpages, pmalloc, free_kpages) and
--   ram_stealmem of os161/kern/arch/mips/mips/ram.c. The record Vm holds the core map, its size
--   and the contents of the pages.
-- - AddressSpace: os161/kern/vm/addrspace.c, and fault_handler, load_page and vm_fault of
--   os161/kern/vm/vm.c. Pages come from Coremap. The record Cpu has the level of interrupts, the
--   current address space, the TLB and the requests made to the file.
-- - Thread: os161/kern/thread/thread.c and os161/kern/thread/scheduler.c. The record Kernel has
--   the lists of sleepers and zombies (each an Array), the run queue (a Queue), the running thread,
--   and the level of interrupts. A thread is its address, its field t_sleepaddr a function. A switch
--   is modelled up to the machine's md_switch. Thread.Fork has the children that thread_fork records,
--   and its part with interrupts off.
-- - Synch: os161/kern/thread/synch.c. The record System has the kernel of Thread, the objects by
--   their addresses, and where each thread stands. A step is what the running thread does up to its
--   next sleep, yield or return: with interrupts off nothing comes between. p, v, acquire, release,
--   wait, signal and broadcast are P, V, lock_acquire, lock_release, cv_wait, cv_signal and
--   cv_broadcast. A thread that has not run yet stands where mi_threadstart calls spl0. An address
--   of a semaphore that a call takes for a lock, or the like, is a halt.
-- - Syscall: os161/kern/arch/mips/mips/syscall.c. Syscall.Defs has waitpid and _exit on the process
--   table of Thread; world is what the other threads make of the table while waitpid sleeps.
--   Syscall.Heap has sbrk on the address space of AddressSpace.
-- - UserMem: os161/kern/lib/copyinout.c and os161/kern/userprog/uio.c. Memory is a function from
--   addresses to bytes, and which addresses of a process fault is an argument, faults. The record
--   Uio is the struct uio; an invalid uio_rw or uio_segflg, which panics, has no value here.
-- - Sfs: os161/kern/dev/lamebus/lhd.c and os161/kern/fs/sfs/sfs_io.c, with sfs_clearblock and
--   sfs_sync_inode of os161/kern/fs/sfs/sfs_vnode.c. Sfs.Disk has lhd_io on the Uio and uiomove of
--   UserMem; the record Disk is the hardware: how an operation on a sector ends, and what it makes of
--   the buffer on the card. Sfs.Blocks has sfs_rwblock, whose retries hand on the uio as the driver
--   left it. Sfs.BlockMap has sfs_balloc, sfs_bfree, sfs_bused and sfs_bmap; the blocks of its device
--   are lists of words, and an error of the device is a result. Sfs.Chains and Sfs.Mapping have the
--   proofs: what a chain that succeeded has done, and that a direct block that was mapped is found again.
-- - Kheap: os161/kern/lib/kheap.c, kmalloc and kfree. Kheap.Pagerefs has the pool of page records, a
--   bit for each; Kheap.Defs has the blocks of a page, whose free ones are linked through memory by
--   their first words, and the lists of pages, which are lists of indices of records. Memory and the
--   pages come from the record PageSource of Kheap.Source, with the laws that the proofs use;
--   Kheap.Machine fills it with alloc_kpages, free_kpages and the memory of Coremap. Kheap.Invariant
--   says when a heap is in order and which blocks are live; Kheap.Alloc, Kheap.Free, Kheap.Pair and
--   Kheap.Whole have the main proofs, and the other files their steps.
-- - Vnode: os161/kern/fs/vfs/vnode.c, the counts of a vnode, with the test in sfs_reclaim of
--   os161/kern/fs/sfs/sfs_vnode.c. Vnode.Defs has each critical section as a function, and the data
--   type Step, by which the threads that use a vnode take them in any order; that the lock keeps them
--   apart is Synch's. What sfs_reclaim does to the disk is a step that ends or fails.
--
-- Numbers are natural numbers; what the source does with 32 bits is written out as a remainder.
-- Outside Kheap the answer of kmalloc is a Boolean argument, mem, of each function that calls it.
-- The slot that TLB_Random picks is an argument, random. A loop whose end is not plain from its shape has
-- fuel: the doubling of array_preallocate and of q_preallocate has as many rounds as the size
-- that is asked for, and each round at least doubles; q_addtail and q_grow call each other, to a
-- depth of two, since a grown queue has room; the loops over the core map, a bitmap, the
-- sleepers and the process table have one round for each entry. The theorems that give a result,
-- the room that was asked for or the place that was found, show that the fuel is enough.
--
-- Not modelled: the machine below (traps, the processor's registers, the other devices), the
-- rest of the file systems, the other system calls, the rest of thread_create and thread_fork,
-- the end of a thread, and the programs outside the kernel. A switch leaves out the tests of the
-- magic numbers on the stack, the zombies that exorcise frees, and as_activate; a scheduler that
-- finds no thread to run, where the processor would idle, is a halt, and so is a write past a
-- block. Of NULL pointers only those are modelled that the source tests to choose a branch.
pub mod Prelude
pub mod Array
pub mod Queue
pub mod Bitmap
pub mod Coremap
pub mod AddressSpace
pub mod Thread
pub mod Synch
pub mod Syscall
pub mod UserMem
pub mod Sfs
pub mod Kheap
pub mod Vnode
