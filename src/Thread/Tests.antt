-- ===== src/Thread/Tests.antt =====
-- Runs of the thread functions, and their theorems at a concrete kernel.
use operating_system.Prelude.{
  ◌≤◌, ℕ, zero, suc, ◌+◌, ◌%◌, ◌≡◌, refl, inr, true, false, Option, none, some, List, [], ◌∷◌, ◌==◌,
  if◌then◌else◌, arith, done, halt, get_elem?, replicate, spl_high, pos,
}
use operating_system.Array
use operating_system.Array.{Array}
use operating_system.Queue
use operating_system.Queue.{Queue}
use operating_system.Thread.Defs.{
  Process, Kernel, unused_process, create_pid, thread_wakeup, thread_wakeup_one, thread_yield,
  thread_sleep,
}
use operating_system.Thread.Pids.{FirstFree, Created, create_pid-FirstFree}
use operating_system.Thread.Wakeup.{thread_wakeup-Holds}
use operating_system.Thread.Switch.{thread_yield-Holds, thread_sleep-Holds}

-- 7 and 8 sleep, on 100 and on 200; 3 runs; 5 waits for the processor.
abbrev asleep : Array ℕ
asleep = record { num = 2; max = 3; v = some (some 7 ∷ some 8 ∷ none ∷ []) }

abbrev waiting : Queue ℕ
waiting = record { size = 4; nextwrite = 1; nextread = 0; slots = some 5 ∷ none ∷ none ∷ none ∷ [] }

abbrev kernel : Kernel
kernel = record {
  curspl = spl_high;
  in_interrupt = false;
  curthread = some 3;
  sleepers = asleep;
  zombies = record { num = 0; max = 0; v = none };
  runqueue = waiting;
  sleepaddr = λ t. if t == 7 then some 100 else if t == 8 then some 200 else none;
  numthreads = 4;
}

asleep-Holds : Array.Holds asleep (7 ∷ 8 ∷ [])
asleep-Holds = record { fits = omega arith; room = refl; count = refl; cells = cells_of }
  where
    cells_of :
        (i x : ℕ)
        → get_elem? (7 ∷ 8 ∷ []) i ≡ some x
        → get_elem? (some 7 ∷ some 8 ∷ none ∷ []) i ≡ some (some x)
    cells_of zero x e = ground arith
    cells_of (suc zero) x e = ground arith
    cells_of (suc (suc i)) x e = ground arith

waiting-Holds : Queue.Holds waiting (5 ∷ [])
waiting-Holds = record {
  small = omega arith;
  room = refl;
  head = omega arith;
  fits = omega arith;
  tail = refl;
  cells = cells_of;
}
  where
    cells_of :
        (i x : ℕ)
        → get_elem? (5 ∷ []) i ≡ some x
        → get_elem? waiting.slots ((0 + i) % 4) ≡ some (some x)
    cells_of zero x e = ground arith
    cells_of (suc i) x e = ground arith

wakes_with_interrupts : thread_wakeup_one true 200 (record kernel { curspl = 0 }) ≡ halt
unfolding thread_wakeup_one
wakes_with_interrupts = refl

thread_wakeup-Holds_example :
    (s' : Array ℕ) × (q' : Queue ℕ) × (thread_wakeup false 200 kernel
      ≡ done (record kernel { sleepers = s'; runqueue = q' }))
    × Array.Holds s' (7 ∷ [])
    × Queue.Holds q' (5 ∷ 8 ∷ [])
    × (q'.size ≡ 4)
    × (s'.max ≡ 3)
thread_wakeup-Holds_example =
    thread_wakeup-Holds false 200 kernel (omega arith) asleep-Holds waiting-Holds (omega arith)

thread_yield-Holds_example :
    (q' : Queue ℕ) × (thread_yield false kernel
      ≡ done (record kernel { curthread = some 5; runqueue = q' }))
    × Queue.Holds q' (3 ∷ [])
    × (q'.size ≡ 4)
thread_yield-Holds_example = thread_yield-Holds false kernel refl waiting-Holds (omega arith) refl

thread_sleep-Holds_example :
    (s' : Array ℕ) × (q' : Queue ℕ) × (thread_sleep false 200 kernel
      ≡ done (record kernel {
        curthread = some 5;
        sleepers = s';
        runqueue = q';
        sleepaddr = λ t. if t == 3 then some 200 else kernel.sleepaddr t;
      }))
    × Array.Holds s' (7 ∷ 8 ∷ 3 ∷ [])
    × Queue.Holds q' []
    × (q'.size ≡ 4)
    × (3 ≤ s'.max)
thread_sleep-Holds_example =
    thread_sleep-Holds false 200 kernel refl (omega arith) refl asleep-Holds (inr (omega arith))
      waiting-Holds

-- A table in which the slot 1 is in use.
abbrev one_used : List Process
one_used =
    unused_process ∷ record unused_process { pid = pos 1; status = 1 } ∷ replicate 98 unused_process

create_pid-FirstFree_example :
    (r : Option ℕ) × (table' : List Process) × (create_pid one_used ≡ done (r, table'))
    × FirstFree one_used 1 r
    × Created one_used r table'
create_pid-FirstFree_example = create_pid-FirstFree one_used refl
