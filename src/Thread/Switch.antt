-- ===== src/Thread/Switch.antt =====
-- kern/thread/thread.c: which thread runs after a switch.
use mathlib.Core.Path.{subst}
use mathlib.Core.Logic.{◌⊎◌}
use operating_system.Prelude.{
  ℕ, ◌+◌, ◌≤◌, ◌<◌, ◌≡◌, ◌∙◌, Bool, true, false, some, List, [], ◌∷◌, ◌++◌, length, lt→ltb,
  if◌then◌else◌, ◌==◌, Outcome, done, halt, ok, spl_high,
}
use operating_system.Array
use operating_system.Array.{Array}
use operating_system.Array.Refine.{add-Holds}
use operating_system.Queue
use operating_system.Queue.{Queue}
use operating_system.Queue.Growth.{addtail-Holds_room}
use operating_system.Queue.Refine.{remhead-Holds}
use operating_system.Thread.Defs.{
  Kernel, sleep, thread_yield, thread_sleep, mi_switch, stash, scheduler, make_runnable, must,
  must_array,
}

-- `thread_yield`, with room for one more in the run queue: it never fails, whatever memory there is.
-- The thread that runs next is the first of the run queue with the yielding thread behind it, which
-- is the yielding thread itself where the queue is empty; the others wait in that order.
pub thread_yield-Holds :
    (mem : Bool) (k : Kernel) {cur next : ℕ} {running rest : List ℕ}
    → k.curthread ≡ some cur
    → Queue.Holds k.runqueue running
    → length running + 1 < k.runqueue.size
    → running ++ (cur ∷ []) ≡ next ∷ rest
    → (q' : Queue ℕ) × (thread_yield mem k
        ≡ done (record k { curspl = spl_high; curthread = some next; runqueue = q' }))
      × Queue.Holds q' rest
      × (q'.size ≡ k.runqueue.size)
unfolding thread_yield mi_switch stash scheduler make_runnable must
thread_yield-Holds mem k {cur} cur_is hq room order =
    let (q1, e1, hq1, size1) = addtail-Holds_room mem cur hq room in
    let (q2, e2, hq2, size2) = remhead-Holds (subst (Queue.Holds q1) order hq1) in
    (q2, rw (cur_is, e1, e2), hq2, size2 ∙ size1)

mi_switch_sleep :
    (mem : Bool) (k : Kernel) {cur next : ℕ} {s' : Array ℕ} {q' : Queue ℕ}
    → 0 < k.curspl
    → k.curthread ≡ some cur
    → Array.add mem k.sleepers cur ≡ done (ok, s')
    → Queue.remhead k.runqueue ≡ done (next, q')
    → mi_switch mem sleep k
      ≡ done (record k { curthread = some next; sleepers = s'; runqueue = q' })
unfolding mi_switch stash scheduler must_array
mi_switch_sleep mem k off cur_is e1 e2 = rw (lt→ltb 0 k.curspl off, cur_is, e1, e2)

pub thread_sleep_lem :
    (mem : Bool) (addr : ℕ) (k : Kernel) {cur : ℕ} {r : Outcome Kernel}
    → k.in_interrupt ≡ false
    → k.curthread ≡ some cur
    → mi_switch mem sleep
        (record k { sleepaddr = λ t. if t == cur then some addr else k.sleepaddr t })
      ≡ r
    → thread_sleep mem addr k ≡ r
unfolding thread_sleep
thread_sleep_lem mem addr k outside cur_is e = rw (outside, cur_is) e

-- `thread_sleep`, outside an interrupt handler and with interrupts off, where another thread can run
-- and memory or the room in the list of sleepers is there: the running thread is the last sleeper and
-- sleeps on the address, every other thread sleeps on what it slept on, the first thread of the run
-- queue runs, and neither block shrinks.
pub thread_sleep-Holds :
    (mem : Bool) (addr : ℕ) (k : Kernel) {cur next : ℕ} {sleeping rest : List ℕ}
    → k.in_interrupt ≡ false
    → 0 < k.curspl
    → k.curthread ≡ some cur
    → Array.Holds k.sleepers sleeping
    → (mem ≡ true) ⊎ (k.sleepers.num < k.sleepers.max)
    → Queue.Holds k.runqueue (next ∷ rest)
    → (s' : Array ℕ) × (q' : Queue ℕ) × (thread_sleep mem addr k
        ≡ done (record k {
          curthread = some next;
          sleepers = s';
          runqueue = q';
          sleepaddr = λ t. if t == cur then some addr else k.sleepaddr t;
        }))
      × Array.Holds s' (sleeping ++ (cur ∷ []))
      × Queue.Holds q' rest
      × (q'.size ≡ k.runqueue.size)
      × (k.sleepers.max ≤ s'.max)
thread_sleep-Holds mem addr k {cur} outside off cur_is hs space hq =
    let (s', e1, hs', grown) = add-Holds mem cur hs space in
    let (q', e2, hq', size) = remhead-Holds hq in
    (
      s',
      q',
      thread_sleep_lem mem addr k outside cur_is (mi_switch_sleep mem _ off cur_is e1 e2),
      hs',
      hq',
      size,
      grown,
    )

-- With no thread in the run queue, the switch waits for an interrupt.
pub mi_switch_idle :
    (mem : Bool) (k : Kernel) {cur : ℕ} {s' : Array ℕ}
    → 0 < k.curspl
    → k.curthread ≡ some cur
    → Array.add mem k.sleepers cur ≡ done (ok, s')
    → Queue.remhead k.runqueue ≡ halt
    → mi_switch mem sleep k ≡ halt
unfolding mi_switch stash scheduler must_array
mi_switch_idle mem k off cur_is e1 e2 = rw (lt→ltb 0 k.curspl off, cur_is, e1, e2)
