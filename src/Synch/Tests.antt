-- ===== src/Synch/Tests.antt =====
-- Runs of the functions of kern/thread/synch.c, and their theorems at a concrete system.
use operating_system.Prelude.{
  ℕ, zero, suc, ◌+◌, ◌%◌, ◌≡◌, refl, inl, true, false, none, some, [], ◌∷◌, ◌==◌, if◌then◌else◌,
  arith, done, get_elem?, replicate,
}
use operating_system.Array
use operating_system.Array.{Array}
use operating_system.Array.Defs.{getnum, getguy, remove}
use operating_system.Queue
use operating_system.Queue.{Queue}
use operating_system.Queue.Defs.{addtail}
use operating_system.Thread.{Kernel}
use operating_system.Thread.Defs.{thread_wakeup, thread_wakeup_one}
use operating_system.Thread.Threads.{Threads, Woke}
use operating_system.Thread.WakeupOne.{thread_wakeup_one-Threads}
use operating_system.Synch.Defs.{
  Object, semaphore, lock, cv, idle, in_p, in_yield, System, raised, acquired, v, acquire, wait,
  step, Run, nothing, then_step,
}
use operating_system.Synch.Acts.{Act, step-Act}
use operating_system.Synch.Safety.{Counted, Excluded, Run-Counted, Run-Excluded}
use operating_system.Synch.Wakeups.{Sound, IsSound}
use operating_system.Synch.Soundness.{Run-IsSound}
use operating_system.Synch.Progress.{Runs, step-Runs}

-- 1 runs, 2 can run, and 3 sleeps in P on the semaphore at 100. At 200 is a lock, at 300 a condition
-- variable.
abbrev asleep : Array ℕ
asleep = record { num = 1; max = 4; v = some (some 3 ∷ none ∷ none ∷ none ∷ []) }

abbrev ready : Queue ℕ
ready = record {
  size = 6;
  nextwrite = 1;
  nextread = 0;
  slots = some 2 ∷ none ∷ none ∷ none ∷ none ∷ none ∷ [];
}

abbrev kernel : Kernel
kernel = record {
  curspl = 0;
  in_interrupt = false;
  curthread = some 1;
  sleepers = asleep;
  zombies = record { num = 0; max = 4; v = some (replicate 4 none) };
  runqueue = ready;
  sleepaddr = λ t. if t == 3 then some 100 else none;
  numthreads = 3;
}

abbrev objects : ℕ → Object
objects a = if a == 100 then semaphore 0 else if a == 200 then lock false none else cv

abbrev first : System
first = record {
  kernel = kernel;
  objects = objects;
  pc = λ t. if t == 1 then idle else if t == 2 then in_yield 0 else in_p 100 0;
}

asleep-Holds : Array.Holds asleep (3 ∷ [])
asleep-Holds = record { fits = omega arith; room = refl; count = refl; cells = cells_of }
  where
    cells_of :
        (i x : ℕ)
        → get_elem? (3 ∷ []) i ≡ some x
        → get_elem? (some 3 ∷ none ∷ none ∷ none ∷ []) i ≡ some (some x)
    cells_of zero x e = ground arith
    cells_of (suc i) x e = ground arith

ready-Holds : Queue.Holds ready (2 ∷ [])
ready-Holds = record {
  small = omega arith;
  room = refl;
  head = omega arith;
  fits = omega arith;
  tail = refl;
  cells = cells_of;
}
  where
    cells_of :
        (i x : ℕ)
        → get_elem? (2 ∷ []) i ≡ some x
        → get_elem? ready.slots ((0 + i) % 6) ≡ some (some x)
    cells_of zero x e = ground arith
    cells_of (suc i) x e = ground arith

first-Sound : Sound first 1 (2 ∷ []) (3 ∷ [])
first-Sound = record {
  threads = record {
    current = refl;
    ready = ready-Holds;
    asleep = asleep-Holds;
    room = omega arith;
    space = omega arith;
  };
  blocked = ((λ a e. (let here : a ≡ 100 = ground arith in rw here refl)), tt);
  level = inl refl;
  outside = refl;
}

high-Threads : Threads (record kernel { curspl = 15 }) 1 (2 ∷ []) (3 ∷ [])
high-Threads = record {
  current = refl;
  ready = ready-Holds;
  asleep = asleep-Holds;
  room = omega arith;
  space = omega arith;
}

first-IsSound : IsSound first
first-IsSound = (1, 2 ∷ [], 3 ∷ [], first-Sound)

abbrev locked : System
locked = record first {
  objects = λ a. if a == 200 then lock true (some 1) else objects a;
  pc = λ t. if t == 1 then idle else first.pc t;
}

locked-Sound : Sound locked 1 (2 ∷ []) (3 ∷ [])
locked-Sound = record {
  threads = first-Sound.threads;
  blocked = ((λ a e. (let here : a ≡ 100 = ground arith in rw here refl)), tt);
  level = inl refl;
  outside = refl;
}

-- 1 takes the lock.
takes : step true (acquire 200) first ≡ done (acquired 1 200 ∷ [], locked)
unfolding step
takes = refl

abbrev after_v : System
after_v = record locked {
  objects = λ a. if a == 100 then semaphore 1 else locked.objects a;
  pc = λ t. if t == 1 then idle else locked.pc t;
  kernel = record kernel {
    sleepers = record { num = 0; max = 4; v = some (some 3 ∷ none ∷ none ∷ none ∷ []) };
    runqueue = record {
      size = 6;
      nextwrite = 2;
      nextread = 0;
      slots = some 2 ∷ some 3 ∷ none ∷ none ∷ none ∷ none ∷ [];
    };
  };
}

-- 1 puts the count up, and 3 wakes.
puts_up : step true (v 100) locked ≡ done (raised 1 100 ∷ [], after_v)
unfolding step thread_wakeup getnum getguy remove addtail
puts_up = refl

two_steps : Run first (raised 1 100 ∷ acquired 1 200 ∷ []) after_v
two_steps = then_step (then_step nothing true (acquire 200) takes refl) true (v 100) puts_up refl

step-Act_example :
    (t : ℕ) × (first.kernel.curthread ≡ some t)
    × Act t first.objects locked.objects (acquired 1 200 ∷ [])
step-Act_example = step-Act true (acquire 200) first takes

Run-Counted_example : Counted 100 0 after_v.objects (raised 1 100 ∷ acquired 1 200 ∷ [])
Run-Counted_example = Run-Counted 100 0 refl two_steps

Run-Excluded_example : Excluded 200 after_v.objects (raised 1 100 ∷ acquired 1 200 ∷ [])
Run-Excluded_example = Run-Excluded 200 none refl two_steps

Run-IsSound_example : IsSound after_v
Run-IsSound_example = Run-IsSound first-IsSound two_steps

step-Runs_example : Runs (step false (wait 300 200) locked)
step-Runs_example =
    step-Runs false 1 locked locked-Sound (wait 300 200) ((refl, (true, refl)), omega arith)

thread_wakeup_one-Threads_example :
    Woke
      (thread_wakeup_one false 100 (record kernel { curspl = 15 }))
      (record kernel { curspl = 15 })
      1
      (2 ∷ 3 ∷ [])
      []
thread_wakeup_one-Threads_example =
    thread_wakeup_one-Threads false 100 (record kernel { curspl = 15 }) (omega arith) high-Threads
