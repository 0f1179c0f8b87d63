-- ===== src/Synch/Defs.antt =====
-- The functions of kern/thread/synch.c, one pass of a waiting loop at a time.
use operating_system.Prelude.{
  ℕ, ◌+◌, ◌-◌, ◌^◌, Bool, true, false, not, ◌&&◌, Option, none, some, List, [], ◌∷◌, ◌++◌, ◌≡◌, ℤ,
  pos, negsuc, ltb, ◌==◌, if◌then◌else◌, Outcome, done, halt, ◌>>=◌, ◌>>◌, assert, spl_high,
}
use operating_system.Thread.{Kernel}
use operating_system.Thread.Defs.{
  thread_sleep, thread_yield, thread_wakeup, thread_wakeup_one, thread_hassleepers,
}

-- What stands at an address: a `struct semaphore`, with its count, a `struct lock`, with `held` and
-- `heldThread`, or a `struct cv`, which has a name alone.
pub data Object : Type 0 where
  semaphore : (count : ℕ) → Object
  lock : (held : Bool) (held_thread : Option ℕ) → Object
  cv : Object

-- `sem_create`: the answers of the two calls of kmalloc, then the count.
unfoldable pub sem_create : Bool → Bool → ℤ → Outcome (Option Object)
sem_create mem mem_name (pos n) = done (if mem && mem_name then some (semaphore n) else none)
sem_create mem mem_name (negsuc n) = halt

-- `lock_create` sets `held` and leaves `heldThread` as the memory has it, `garbage`.
unfoldable pub lock_create : Bool → Bool → Option ℕ → Option Object
lock_create mem mem_name garbage = if mem && mem_name then some (lock false garbage) else none

-- `cv_create`
unfoldable pub cv_create : Bool → Bool → Option Object
cv_create mem mem_name = if mem && mem_name then some cv else none

-- The tests of `sem_destroy` and of `lock_destroy`; the rest of the two, and `cv_destroy`, only frees.
unfoldable pub destroy : ℕ → Kernel → Outcome (Unit {0})
destroy addr k = thread_hassleepers addr (record k { curspl = spl_high }) >>= λ some_sleep.
    assert (not some_sleep)

-- Where a thread goes on when it runs next, with the level that its function puts back: outside of
-- these functions, behind the `thread_sleep` of P, behind one with `lock_acquire` still to do, or
-- behind the switch of `thread_yield`.
pub data Pc : Type 0 where
  idle : Pc
  in_p : (sem spl : ℕ) → Pc
  in_acquire : (lock_addr spl : ℕ) → Pc
  in_yield : (spl : ℕ) → Pc

pub record System : Type 0 where
  pub kernel : Kernel
  pub objects : ℕ → Object
  pub pc : ℕ → Pc

-- What a thread has done: a count taken down by P or up by V, a lock that `lock_acquire` comes out
-- with, and a lock that `lock_release` clears.
pub data Event : Type 0 where
  lowered raised acquired released : (thread addr : ℕ) → Event

pub data Call : Type 0 where
  p v acquire release : (addr : ℕ) → Call
  wait signal broadcast : (cv_addr lock_addr : ℕ) → Call
  yield : Call

abbrev pub update {ℓ} : {A : Type ℓ} → (ℕ → A) → ℕ → A → ℕ → A
update f i a = λ j. if j == i then a else f j

abbrev pub Result : Type 0
Result = Outcome (List Event × System)

-- `spl = splhigh();` and `splx(spl);`
abbrev pub splhigh : System → System
splhigh s = record s { kernel = record s.kernel { curspl = spl_high } }

abbrev pub splx : ℕ → System → System
splx spl s = record s { kernel = record s.kernel { curspl = spl } }

-- The end of a function: the level goes back, and the thread goes on outside.
abbrev pub leave : ℕ → ℕ → System → System
leave t spl s = record s { kernel = record s.kernel { curspl = spl }; pc = update s.pc t idle }

-- `thread_sleep(addr)`, behind which the thread goes on at `next`
unfoldable pub sleep_then : Bool → ℕ → ℕ → Pc → System → Result
sleep_then mem t addr next s = do
  k ← thread_sleep mem addr s.kernel
  done ([], record s { kernel = k; pc = update s.pc t next })

-- The same for a wakeup, by `thread_wakeup` or `thread_wakeupOne`.
unfoldable pub with_kernel : Outcome Kernel → System → Outcome System
with_kernel o s = o >>= λ k. done (record s { kernel = k })

-- `while (sem->count==0) thread_sleep(sem);`, and the rest of P
unfoldable pub p_loop : Bool → ℕ → ℕ → ℕ → System → Result
unfolding sleep_then
p_loop mem t sem spl s = elim (s.objects sem) [
  | semaphore n ↦
      if n == 0
      then sleep_then mem t sem (in_p sem spl) s
      else (assert (ltb 0 n)
          >> done (
            lowered t sem ∷ [],
            leave t spl (record s { objects = update s.objects sem (semaphore (n - 1)) }),
          ))
  | lock h g ↦ halt
  | cv ↦ halt
]

-- `while((lock->held)==1) thread_sleep(lock);`, and the rest of `lock_acquire`
unfoldable pub acquire_loop : Bool → ℕ → ℕ → ℕ → System → Result
unfolding sleep_then
acquire_loop mem t l spl s = elim (s.objects l) [
  | semaphore n ↦ halt
  | lock h g ↦
      if h
      then sleep_then mem t l (in_acquire l spl) s
      else done (
        acquired t l ∷ [],
        leave t spl (record s { objects = update s.objects l (lock true (some t)) }),
      )
  | cv ↦ halt
]

-- V between `splhigh` and `splx`. The count is an `int`: past 2 ^ 31 - 1 it is not above 0.
unfoldable pub v_body : Bool → ℕ → ℕ → System → Outcome (List Event × System)
unfolding with_kernel
v_body mem t sem s = elim (s.objects sem) [
  | semaphore n ↦ do
    assert (ltb (n + 1) (2 ^ 31))
    s' ←
        with_kernel (thread_wakeup mem sem s.kernel)
          (record s { objects = update s.objects sem (semaphore (n + 1)) })
    done (raised t sem ∷ [], s')
  | lock h g ↦ halt
  | cv ↦ halt
]

abbrev pub is_thread : ℕ → Option ℕ → Bool
is_thread t none = false
is_thread t (some u) = u == t

-- `lock_release` between `splhigh` and `splx`: for a thread that does not hold the lock, nothing.
unfoldable pub release_body : Bool → ℕ → ℕ → System → Result
unfolding with_kernel
release_body mem t l s = elim (s.objects l) [
  | semaphore n ↦ halt
  | lock h g ↦
      let freed = (do
        s' ←
            with_kernel (thread_wakeup mem l s.kernel)
              (record s { objects = update s.objects l (lock false none) })
        done (released t l ∷ [], s')) in
      if is_thread t g then freed else done ([], s)
  | cv ↦ halt
]

-- `lock_do_i_hold`
unfoldable pub lock_do_i_hold : ℕ → ℕ → System → Outcome Bool
lock_do_i_hold t l s = elim (s.objects l) [
  | semaphore n ↦ halt
  | lock h g ↦ done (is_thread t g)
  | cv ↦ halt
]

unfoldable pub finish : ℕ → ℕ → List Event × System → Result
finish t spl (es, s) = done (es, leave t spl s)

unfoldable pub wake_then : Outcome Kernel → ℕ → ℕ → System → Result
unfolding with_kernel
wake_then o t spl s = do s' ← with_kernel o s; done ([], leave t spl s')

-- `cv_wait` up to its `thread_sleep`; behind it, `lock_acquire` is still to do.
unfoldable pub wait_body : Bool → ℕ → ℕ → ℕ → ℕ → System → Result
unfolding release_body sleep_then
wait_body mem t c l spl s = do
  r ← release_body mem t l s
  r' ← sleep_then mem t c (in_acquire l spl) r.1
  done (r.0, r'.1)

-- A pointer to a `struct cv` points to one.
unfoldable pub as_cv : ℕ → System → Outcome (Unit {0})
as_cv c s = elim (s.objects c) [ semaphore n ↦ halt | lock h g ↦ halt | cv ↦ done tt ]

-- A call by the running thread `t`, from outside.
unfoldable pub start : Bool → ℕ → Call → System → Result
unfolding p_loop acquire_loop v_body release_body lock_do_i_hold as_cv finish wake_then wait_body
start mem t (p sem) s =
    assert (not s.kernel.in_interrupt) >> p_loop mem t sem s.kernel.curspl (splhigh s)
start mem t (v sem) s = v_body mem t sem (splhigh s) >>= finish t s.kernel.curspl
start mem t (acquire l) s = acquire_loop mem t l s.kernel.curspl (splhigh s)
start mem t (release l) s = release_body mem t l (splhigh s) >>= finish t s.kernel.curspl
start mem t (wait c l) s =
    as_cv c s
    >> do held ← lock_do_i_hold t l s; assert held; wait_body mem t c l s.kernel.curspl (splhigh s)
start mem t (signal c l) s = as_cv c s >> do
  held ← lock_do_i_hold t l s
  assert held
  wake_then (thread_wakeup_one mem c (splhigh s).kernel) t s.kernel.curspl s
start mem t (broadcast c l) s = as_cv c s >> do
  held ← lock_do_i_hold t l s
  assert held
  wake_then (thread_wakeup mem c (splhigh s).kernel) t s.kernel.curspl s
start mem t yield s = do
  k ← thread_yield mem s.kernel
  done ([], record s { kernel = k; pc = update s.pc t (in_yield s.kernel.curspl) })

-- `curthread->t_sleepaddr = NULL;`, behind the switch of `thread_sleep`
abbrev pub woken : ℕ → System → System
woken t s = record s { kernel = record s.kernel { sleepaddr = update s.kernel.sleepaddr t none } }

-- The running thread `t` goes on from where it stands.
unfoldable pub go_on : Bool → ℕ → Pc → Call → System → Result
unfolding start p_loop acquire_loop
go_on mem t idle c s = start mem t c s
go_on mem t (in_p sem spl) c s = p_loop mem t sem spl (woken t s)
go_on mem t (in_acquire l spl) c s = acquire_loop mem t l spl (woken t s)
go_on mem t (in_yield spl) c s = done ([], leave t spl s)

-- One step of the machine: the running thread makes the call `c`, or goes on.
unfoldable pub step : Bool → Call → System → Result
unfolding go_on
step mem c s = elim s.kernel.curthread [ none ↦ halt | some t ↦ go_on mem t (s.pc t) c s ]

-- The steps that do not halt, with what was done, last event first.
pub data Run (first : System) : List Event → System → Type 0 where
  nothing : Run first [] first
  then_step :
      {es new all : List Event} {s s' : System}
      → Run first es s
      → (mem : Bool) (c : Call) → step mem c s ≡ done (new, s')
      → all ≡ new ++ es
      → Run first all s'
