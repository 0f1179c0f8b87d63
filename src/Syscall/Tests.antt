-- ===== src/Syscall/Tests.antt =====
-- Runs of the system calls, and their theorems at concrete processes.
use operating_system.Prelude.{
  ℕ, ◌+◌, ◌≡◌, refl, true, false, none, some, List, [], ◌∷◌, pos, negsuc, arith, replicate, done,
  halt, einval, ok,
}
use operating_system.Thread.Defs.{Process, unused_process}
use operating_system.Coremap.{Vm}
use operating_system.AddressSpace.Defs.{Addrspace, Region, no_tables, as_copy}
use operating_system.Syscall.Defs.{
  code, refuse, give_up, waitpid, wait_child, entry, forget, collect, child_index, exit, sleeps,
}
use operating_system.Syscall.Waiting.{
  Asks, Family, Collected, waitpid-exit, waitpid-waitpid, waitpid_stranger,
}
use operating_system.Syscall.Timeout.{after_sleeps, waitpid_gives_up}
use operating_system.Syscall.Heap.{sbrk}
use operating_system.Syscall.Growth.{Grown, sbrk_grow}

-- The process 1 has the child 2, which runs.
abbrev parent : Process
parent = record unused_process {
  pid = pos 1;
  status = 1;
  num_of_child = 2;
  child_ids = pos 2 ∷ pos 2 ∷ replicate 8 (pos 0);
}

abbrev child : Process
child = record unused_process { pid = pos 2; status = 1 }

abbrev exited : Process
exited = record child { status = 2; exit_code = 5 }

abbrev three : Process → List Process
three c = unused_process ∷ parent ∷ c ∷ []

-- Nobody else runs.
abbrev quiet : ℕ → List Process → List Process
quiet s table = table

asks : Asks 1 2 0x1000 (pos 0)
asks = record { in_table = omega arith; good_status = refl; other = omega arith; no_options = refl }

family : Family (three child) 1 2 child parent
unfolding child_index
family = record {
  child_at = refl;
  me_at = refl;
  used = refl;
  not_waited = omega arith;
  slot = omega arith;
  counted = omega arith;
}

abbrev after_waitpid : List Process
after_waitpid =
    unused_process
    ∷ record parent { num_of_child = 1; child_ids = negsuc 0 ∷ pos 2 ∷ replicate 8 (pos 0) }
    ∷ record exited { has_been_waited = 1 }
    ∷ []

collected_run :
    waitpid quiet 1 (pos 2) 0x1000 (pos 0) (exit 2 5 (three child))
    ≡ done (record { answer = code ok; retval = pos 2; status = some 5; table = after_waitpid })
unfolding waitpid wait_child entry collect forget child_index exit
collected_run = refl

waitpid-exit_example :
    (after : List Process) × (waitpid quiet 1 (pos 2) 0x1000 (pos 0) (exit 2 7 (three child))
      ≡ done (record { answer = code ok; retval = pos 2; status = some 7; table = after }))
    × Collected (three child) after 1 2 (record child { exit_code = 7; status = 2 }) parent
waitpid-exit_example = waitpid-exit quiet asks (three child) 7 family

-- After the parent, the process 0 asks for the same child.
waitpid-waitpid_example :
    waitpid quiet 0 (pos 2) 0x1000 (pos 0) after_waitpid ≡ done (refuse einval after_waitpid)
waitpid-waitpid_example =
    waitpid-waitpid quiet quiet 5 asks family collected_run
      (record {
        in_table = omega arith;
        good_status = refl;
        other = omega arith;
        no_options = refl;
      })
      refl

-- The process 1 counts a child, and 2 is none.
abbrev stranger : List Process
stranger = unused_process ∷ record parent { child_ids = replicate 10 (pos 0) } ∷ exited ∷ []

waitpid_stranger_example : waitpid quiet 1 (pos 2) 0x1000 (pos 0) stranger ≡ halt
unfolding child_index
waitpid_stranger_example =
    waitpid_stranger quiet asks stranger refl refl refl (omega arith) refl (omega arith) refl

-- The child stands in the last slot.
abbrev last_child : List Process
last_child =
    unused_process
    ∷ record parent {
      child_ids =
          pos 3 ∷ pos 3 ∷ pos 3 ∷ pos 3 ∷ pos 3 ∷ pos 3 ∷ pos 3 ∷ pos 3 ∷ pos 3 ∷ pos 2 ∷ [];
    }
    ∷ exited
    ∷ []

last_slot : waitpid quiet 1 (pos 2) 0x1000 (pos 0) last_child ≡ done (refuse einval last_child)
unfolding waitpid wait_child entry child_index
last_slot = refl

waitpid_gives_up_example :
    waitpid quiet 1 (pos 2) 0x1000 (pos 0) (three child)
    ≡ done (give_up 2 (after_sleeps quiet sleeps 0 (three child)))
waitpid_gives_up_example = waitpid_gives_up quiet 2 (λ s table r. r) (three child) asks family refl

abbrev no_region : Region
no_region = record { vbase = 0; npages = 0; offset = 0; executable = false; filesize = 0 }

-- A heap of one page, of which all but 96 bytes are in use.
abbrev heap : Addrspace
heap = record {
  region1 = no_region;
  region2 = no_region;
  vbase3 = 0x20000;
  vtop3 = 0x20fa0;
  npages3 = 1;
  pt1 = no_tables;
  vnode = none;
}

past_the_page : sbrk 4096 heap ≡ (ok, pos 0x20fa0, record heap { vtop3 = 0x21fa0 })
unfolding sbrk
past_the_page = refl

sbrk_grow_example :
    (n : ℕ) × (sbrk 5000 heap
      ≡ (ok, pos 0x20fa0, record heap { vtop3 = 0x20fa0 + 5000; npages3 = n }))
    × Grown 5000 1 n
sbrk_grow_example = sbrk_grow 5000 heap (omega arith) (omega arith) (omega arith)

abbrev memory : Vm
memory = record {
  booted = true;
  firstpaddr = 0;
  lastpaddr = 0;
  coremap = [];
  coremapsize = 0;
  ram = λ p. 0;
}

-- A copy has the base of the heap, and no top.
copied : as_copy true heap none heap memory ≡ done (ok, some (record heap { vtop3 = 0 }), memory)
unfolding as_copy
copied = refl
