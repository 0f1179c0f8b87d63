-- ===== src/Thread/Defs.antt =====
-- kern/thread/thread.c and kern/thread/scheduler.c: the process table, the run queue, the sleepers
-- and the context switch.
use operating_system.Prelude.{
  ℕ, zero, suc, ◌+◌, ◌-◌, Bool, true, false, not, Option, none, some, List, ℤ, pos, negsuc, ltb,
  ◌==◌, if◌then◌else◌, get_elem?, replicate, modify, Outcome, done, halt, ◌>>=◌, ◌>>◌, assert, Code,
  ok, spl_high,
}
use operating_system.Array
use operating_system.Array.{Array}
use operating_system.Queue
use operating_system.Queue.{Queue}

-- `struct process_info`; a free slot has the pid -1.
pub record Process : Type 0 where
  pub pid : ℤ
  pub status : ℕ
  pub exit_code : ℕ
  pub num_of_child : ℕ
  pub child_ids : List ℤ
  pub has_been_waited : ℕ

abbrev pub p_table_size : ℕ
p_table_size = 100

abbrev pub max_num_child : ℕ
max_num_child = 10

abbrev pub unused_process : Process
unused_process = record {
  pid = negsuc 0;
  status = 0;
  exit_code = 0;
  num_of_child = 0;
  child_ids = replicate max_num_child (pos 0);
  has_been_waited = 0;
}

-- `initialize_Process_Table`
unfoldable pub initialize_process_table : List Process
initialize_process_table = replicate p_table_size unused_process

abbrev pub is_unused : Process → Bool
is_unused p = elim p.pid [ pos n ↦ false | negsuc n ↦ n == 0 ]

-- The loop of `thread_create`, from the slot `i` on: the first free slot, or none (EAGAIN) when the
-- last slot, `P_TABLE_SIZE - 1`, is in use too.
unfoldable pub free_slot : ℕ → ℕ → List Process → Outcome (Option ℕ)
free_slot zero i table = halt
free_slot (suc n) i table =
    let next = free_slot n (i + 1) table in
    elim (get_elem? table i) [
      | none ↦ halt
      | some p ↦
          if is_unused p
          then done (some i)
          else if ltb i (p_table_size - 1)
          then next
          else done none
    ]

abbrev pub started : ℕ → Process → Process
started i p = record p { pid = pos i; status = 1; exit_code = 0; num_of_child = 0 }

-- The part of `thread_create` that gives the new thread its pid: the pid, and the table.
unfoldable pub create_pid : List Process → Outcome (Option ℕ × List Process)
unfolding free_slot
create_pid table = do
  found ← free_slot p_table_size 1 table
  elim found [ none ↦ done (none, table) | some i ↦ done (some i, modify table i (started i)) ]

-- The lists of threads, by the threads' addresses, with the address each one sleeps on (`none` for
-- NULL), the running thread, the count of threads, the interrupt level, and whether an interrupt is
-- being handled. The stacks of the threads, and so the tests of their magic bytes, are not modelled.
pub record Kernel : Type 0 where
  pub curspl : ℕ
  pub in_interrupt : Bool
  pub curthread : Option ℕ
  pub sleepers : Array ℕ
  pub zombies : Array ℕ
  pub runqueue : Queue ℕ
  pub sleepaddr : ℕ → Option ℕ
  pub numthreads : ℕ

-- `make_runnable`; its callers have made its assertion on the interrupt level already, as `mi_switch`
-- has made that of `scheduler`.
unfoldable pub make_runnable : Bool → ℕ → Queue ℕ → Outcome (Code × Queue ℕ)
make_runnable mem t q = Queue.addtail mem q t

-- assert(result == 0);
unfoldable pub must : Code × Queue ℕ → Outcome (Queue ℕ)
must (ok, q) = done q
must (e, q) = halt

abbrev pub sleeps_on : (ℕ → Option ℕ) → ℕ → ℕ → Bool
sleeps_on sleepaddr addr t = elim (sleepaddr t) [ none ↦ false | some a ↦ a == addr ]

-- A sleeper goes from its place `i` to the run queue.
unfoldable pub wake : Bool → ℕ → ℕ → Array ℕ × Queue ℕ → Outcome (Array ℕ × Queue ℕ)
unfolding make_runnable must
wake mem i t (s, q) = do
  s' ← Array.remove s (pos i)
  r ← make_runnable mem t q
  q' ← must r
  done (s', q')

-- The loop of `thread_wakeup` from the index `i` on, with `n` sleepers left to look at. After a
-- removal it looks at the same index again.
unfoldable pub wakeup_loop :
    Bool → (ℕ → Option ℕ) → ℕ → ℕ → ℕ → Array ℕ × Queue ℕ → Outcome (Array ℕ × Queue ℕ)
unfolding wake
wakeup_loop mem sleepaddr addr zero i (s, q) = if ltb i (Array.getnum s) then halt else done (s, q)
wakeup_loop mem sleepaddr addr (suc n) i (s, q) =
    let body =
      (Array.getguy s (pos i) >>= λ t.
      let woken = (wake mem i t (s, q) >>= wakeup_loop mem sleepaddr addr n i) in
      let passed = wakeup_loop mem sleepaddr addr n (i + 1) (s, q) in
      if sleeps_on sleepaddr addr t then woken else passed) in
    if ltb i (Array.getnum s) then body else done (s, q)

unfoldable pub thread_wakeup : Bool → ℕ → Kernel → Outcome Kernel
unfolding wakeup_loop
thread_wakeup mem addr k = do
  assert (ltb 0 k.curspl)
  r ← wakeup_loop mem k.sleepaddr addr (Array.getnum k.sleepers) 0 (k.sleepers, k.runqueue)
  done (record k { sleepers = r.0; runqueue = r.1 })

-- `thread_wakeupOne`: the same loop, left after the first removal.
unfoldable pub wakeup_one_loop :
    Bool → (ℕ → Option ℕ) → ℕ → ℕ → ℕ → Array ℕ × Queue ℕ → Outcome (Array ℕ × Queue ℕ)
unfolding wake
wakeup_one_loop mem sleepaddr addr zero i (s, q) =
    if ltb i (Array.getnum s) then halt else done (s, q)
wakeup_one_loop mem sleepaddr addr (suc n) i (s, q) =
    let body =
      (Array.getguy s (pos i) >>= λ t.
      let passed = wakeup_one_loop mem sleepaddr addr n (i + 1) (s, q) in
      if sleeps_on sleepaddr addr t then wake mem i t (s, q) else passed) in
    if ltb i (Array.getnum s) then body else done (s, q)

unfoldable pub thread_wakeup_one : Bool → ℕ → Kernel → Outcome Kernel
unfolding wakeup_one_loop
thread_wakeup_one mem addr k = do
  assert (ltb 0 k.curspl)
  r ← wakeup_one_loop mem k.sleepaddr addr (Array.getnum k.sleepers) 0 (k.sleepers, k.runqueue)
  done (record k { sleepers = r.0; runqueue = r.1 })

-- `thread_hassleepers`, from the index `i` on
unfoldable pub hassleepers_loop : (ℕ → Option ℕ) → ℕ → ℕ → ℕ → Array ℕ → Outcome Bool
hassleepers_loop sleepaddr addr zero i s = if ltb i (Array.getnum s) then halt else done false
hassleepers_loop sleepaddr addr (suc n) i s =
    let body =
      (Array.getguy s (pos i) >>= λ t.
      let passed = hassleepers_loop sleepaddr addr n (i + 1) s in
      if sleeps_on sleepaddr addr t then done true else passed) in
    if ltb i (Array.getnum s) then body else done false

unfoldable pub thread_hassleepers : ℕ → Kernel → Outcome Bool
unfolding hassleepers_loop
thread_hassleepers addr k =
    assert (ltb 0 k.curspl)
    >> hassleepers_loop k.sleepaddr addr (Array.getnum k.sleepers) 0 k.sleepers

-- Where `mi_switch` puts the thread that gives up the processor.
pub data ThreadState : Type 0 where
  run ready sleep zomb : ThreadState

unfoldable pub must_array : Code × Array ℕ → Outcome (Array ℕ)
must_array (ok, a) = done a
must_array (e, a) = halt

unfoldable pub stash : Bool → ThreadState → ℕ → Kernel → Outcome Kernel
unfolding make_runnable must must_array
stash mem ready t k = do
  r ← make_runnable mem t k.runqueue
  q ← must r
  done (record k { runqueue = q })
stash mem sleep t k = do
  r ← Array.add mem k.sleepers t
  s ← must_array r
  done (record k { sleepers = s })
stash mem zomb t k = do
  r ← Array.add mem k.zombies t
  z ← must_array r
  done (record k { zombies = z })
stash mem run t k = halt

-- `scheduler`, once the run queue is not empty: until then it idles, and only an interrupt changes
-- that, so an empty queue has no next thread here.
unfoldable pub scheduler : Queue ℕ → Outcome (ℕ × Queue ℕ)
scheduler q = Queue.remhead q

-- `mi_switch` up to the machine's switch: with no running thread it does nothing.
unfoldable pub mi_switch : Bool → ThreadState → Kernel → Outcome Kernel
unfolding stash scheduler
mi_switch mem nextstate k = assert (ltb 0 k.curspl) >> elim k.curthread [
  | none ↦ done k
  | some cur ↦ do
    k1 ← stash mem nextstate cur (record k { curthread = none })
    r ← scheduler k1.runqueue
    done (record k1 { curthread = some r.0; runqueue = r.1 })
]

-- `thread_yield` up to the switch: the level goes back, by `splx(spl)`, when the thread runs again.
unfoldable pub thread_yield : Bool → Kernel → Outcome Kernel
unfolding mi_switch
thread_yield mem k = mi_switch mem ready (record k { curspl = spl_high })

-- `thread_sleep` up to the switch: the address is set before the thread goes on the list.
unfoldable pub thread_sleep : Bool → ℕ → Kernel → Outcome Kernel
unfolding mi_switch
thread_sleep mem addr k = assert (not k.in_interrupt) >> elim k.curthread [
  | none ↦ halt
  | some cur ↦
      mi_switch mem sleep
        (record k { sleepaddr = λ t. if t == cur then some addr else k.sleepaddr t })
]
