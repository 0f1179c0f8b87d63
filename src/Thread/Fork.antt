-- ===== src/Thread/Fork.antt =====
-- kern/thread/thread.c: the children that `thread_fork` records, and the part with interrupts off, in
-- which the new thread is made runnable; and the functions of kern/thread/scheduler.c that it needs.
use operating_system.Prelude.{
  ℕ, ◌+◌, Bool, false, List, [], ◌∷◌, ℤ, pos, negsuc, ltb, ◌==◌, if◌then◌else◌, set, Outcome, done,
  halt, ◌>>=◌, ◌>>◌, assert, Code, ok, spl_high,
}
use operating_system.Array
use operating_system.Array.{Array}
use operating_system.Queue
use operating_system.Queue.{Queue}
use operating_system.Thread.Defs.{Process, Kernel, max_num_child, make_runnable}

-- `childIDs[i] = pid`: a write past the block of `MAX_NUM_CHILD` is a halt.
unfoldable pub set_child : ℕ → ℕ → Process → Outcome Process
set_child i pid p =
    if ltb i max_num_child
    then done (record p { child_ids = set p.child_ids i (pos pid) })
    else halt

-- The loop over the children: the first slot that is 0, or `MAX_NUM_CHILD`.
abbrev pub is_zero : ℤ → Bool
is_zero z = elim z [ pos n ↦ n == 0 | negsuc n ↦ false ]

unfoldable pub child_slot : ℕ → List ℤ → ℕ
child_slot i [] = i
child_slot i (c ∷ cs) = let later = child_slot (i + 1) cs in if is_zero c then i else later

-- What a fork does to the entry of the parent, whose child has the pid `pid`.
unfoldable pub record_child : ℕ → Process → Outcome Process
unfolding set_child child_slot
record_child pid p = do
  p1 ← set_child (child_slot 0 p.child_ids) pid (record p { num_of_child = p.num_of_child + 1 })
  p2 ← set_child p1.num_of_child pid p1
  done (record p2 { num_of_child = p2.num_of_child + 1 })

-- `scheduler_preallocate`
unfoldable pub scheduler_preallocate : Bool → ℕ → Kernel → Outcome (Code × Queue ℕ)
scheduler_preallocate mem nthreads k =
    assert (ltb 0 k.curspl) >> Queue.preallocate mem k.runqueue nthreads

-- `if (result) goto fail;`
unfoldable pub unless_failed :
    Code × Kernel → (Kernel → Outcome (Code × Kernel)) → Outcome (Code × Kernel)
unless_failed (ok, k) next = next k
unless_failed (e, k) next = done (e, k)

-- Space for one more sleeper, one more zombie and one more thread in the run queue, then the new
-- thread `t` on the run queue, and the count; with the answers of kmalloc for the four.
unfoldable pub admit : Bool → Bool → Bool → Bool → ℕ → Kernel → Outcome (Code × Kernel)
unfolding unless_failed scheduler_preallocate make_runnable
admit mem_s mem_z mem_q mem t k = do
  r1 ← Array.preallocate mem_s k.sleepers (k.numthreads + 1)
  unless_failed (r1.0, record k { sleepers = r1.1 })
      (λ k1. do
        r2 ← Array.preallocate mem_z k1.zombies (k1.numthreads + 1)
        unless_failed (r2.0, record k1 { zombies = r2.1 })
            (λ k2. do
              r3 ← scheduler_preallocate mem_q (k2.numthreads + 1) k2
              unless_failed (r3.0, record k2 { runqueue = r3.1 })
                  (λ k3. do
                    r4 ← make_runnable mem t k3.runqueue
                    unless_failed (r4.0, record k3 { runqueue = r4.1 })
                        (λ k4. done (ok, record k4 { numthreads = k4.numthreads + 1 })))))

-- From `splhigh` to `splx(s)`, on the way that fails too.
unfoldable pub fork_atomic : Bool → Bool → Bool → Bool → ℕ → Kernel → Outcome (Code × Kernel)
unfolding admit
fork_atomic mem_s mem_z mem_q mem t k = do
  r ← admit mem_s mem_z mem_q mem t (record k { curspl = spl_high })
  done (r.0, record r.1 { curspl = k.curspl })
