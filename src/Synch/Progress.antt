-- ===== src/Synch/Progress.antt =====
-- kern/thread/synch.c: when a step does not halt.
use operating_system.Prelude.{
  ℕ, suc, ◌+◌, ◌^◌, ◌<◌, ◌≡◌, ◌≢◌, refl, ◌⊎◌, inl, inr, Bool, true, false, Option, some, List, [],
  ◌∷◌, ◌++◌, arith, Outcome, done, halt, ◌>>=◌, ◌>>◌, Outcome-cases, assert, Bool-cases, length,
  length-append, lt→ltb,
}
use operating_system.Thread.{Kernel}
use operating_system.Thread.Threads.{
  thread_yield-Threads, thread_sleep-Threads, thread_wakeup-Threads,
}
use operating_system.Thread.WakeupOne.{thread_wakeup_one-Threads}
use operating_system.Synch.Defs.{
  semaphore, lock, cv, Pc, idle, in_p, in_acquire, in_yield, System, Event, Call, p, v, acquire,
  release, wait, signal, broadcast, yield, update, Result, splhigh, leave, woken, is_thread,
  sleep_then, with_kernel, p_loop, acquire_loop, v_body, release_body, lock_do_i_hold, as_cv,
  finish, wake_then, wait_body, start, go_on, step,
}
use operating_system.Synch.Wakeups.{Sound, splhigh-Sound, woken-Sound, release_body-Stays}

-- Another thread can run.
abbrev pub Other : List ℕ → Type 0
Other running = 0 < length running

-- A semaphore with a count, or without one while another thread can run.
abbrev pub CanLower : System → List ℕ → ℕ → Type 0
CanLower s running a =
    ((n : ℕ) × (s.objects a ≡ semaphore (suc n))) ⊎ ((s.objects a ≡ semaphore 0) × Other running)

abbrev pub CanAcquire : System → List ℕ → ℕ → Type 0
CanAcquire s running l =
    ((g : Option ℕ) × (s.objects l ≡ lock false g))
    ⊎ ((g : Option ℕ) × (s.objects l ≡ lock true g) × Other running)

abbrev pub Holding : System → ℕ → ℕ → ℕ → Type 0
Holding s t c l = (s.objects c ≡ cv) × ((h : Bool) × (s.objects l ≡ lock h (some t)))

-- What a call asks for: objects of the kind that it names, a count of V that stays an `int`, the lock of
-- a condition variable in hand, and another thread to run where it sleeps.
abbrev pub CanCall : System → ℕ → List ℕ → Call → Type 0
CanCall s t running (p a) = CanLower s running a
CanCall s t running (v a) = (n : ℕ) × (s.objects a ≡ semaphore n) × (n + 1 < 2 ^ 31)
CanCall s t running (acquire l) = CanAcquire s running l
CanCall s t running (release l) = (h : Bool) × (g : Option ℕ) × (s.objects l ≡ lock h g)
CanCall s t running (wait c l) = Holding s t c l × Other running
CanCall s t running (signal c l) = Holding s t c l
CanCall s t running (broadcast c l) = Holding s t c l
CanCall s t running yield = Unit {0}

abbrev pub CanStep : System → ℕ → List ℕ → Pc → Call → Type 0
CanStep s t running idle c = CanCall s t running c
CanStep s t running (in_p a spl) c = CanLower s running a
CanStep s t running (in_acquire l spl) c = CanAcquire s running l
CanStep s t running (in_yield spl) c = Unit {0}

abbrev pub Runs : Result → Type 0
Runs m = (es : List Event) × (s' : System) × (m ≡ done (es, s'))

runs : (m : Result) → m ≢ halt → Runs m
runs m some_result = elim (Outcome-cases m) [
  | inl ((es, s'), h) ↦ (es, s', h)
  | inr h ↦ absurd (some_result h)
]

sleep_then-Runs :
    (mem : Bool) (t a : ℕ) (next : Pc) (s : System) (running sleeping : List ℕ)
    → Sound s t running sleeping
    → 0 < s.kernel.curspl
    → Other running
    → Runs (sleep_then mem t a next s)
unfolding sleep_then
sleep_then-Runs mem t a next s [] sleeping i off other = absurd (omega arith)
sleep_then-Runs mem t a next s (n ∷ rest) sleeping i off other =
    let (k', e, _, _, _, _) = thread_sleep-Threads mem a s.kernel i.outside off i.threads in
    ([], record s { kernel = k'; pc = update s.pc t next }, rw e)

module _ (mem : Bool) (t : ℕ) (s : System) {running sleeping : List ℕ}
    (i : Sound s t running sleeping) (off : 0 < s.kernel.curspl) where
  p_loop-Runs : (a spl : ℕ) → CanLower s running a → Runs (p_loop mem t a spl s)
  unfolding p_loop
  p_loop-Runs a spl (inl (n, e)) = runs _ (λ h. ground (arith, e, h))
  p_loop-Runs a spl (inr (e, other)) =
      let (es, s', f) = sleep_then-Runs mem t a (in_p a spl) s running sleeping i off other in
      (es, s', rw (p_loop, e) f)

  acquire_loop-Runs : (a spl : ℕ) → CanAcquire s running a → Runs (acquire_loop mem t a spl s)
  unfolding acquire_loop
  acquire_loop-Runs a spl (inl (g, e)) = runs _ (λ h. ground (arith, e, h))
  acquire_loop-Runs a spl (inr (g, e, other)) =
      let (es, s', f) = sleep_then-Runs mem t a (in_acquire a spl) s running sleeping i off other in
      (es, s', rw (acquire_loop, e) f)

  v_body-Runs : (a n : ℕ) → s.objects a ≡ semaphore n → n + 1 < 2 ^ 31 → Runs (v_body mem t a s)
  unfolding v_body with_kernel
  v_body-Runs a n e small =
      let (k', f, _, _, _, _) = thread_wakeup-Threads mem a s.kernel off i.threads in
      runs _ (λ h. ground (arith, e, lt→ltb (n + 1) (2 ^ 31) small, f, h))

  release_body-Runs :
      (a : ℕ) (h : Bool) (g : Option ℕ) → s.objects a ≡ lock h g → Runs (release_body mem t a s)
  unfolding release_body with_kernel
  release_body-Runs a h g e =
      let (k', f, _, _, _, _) = thread_wakeup-Threads mem a s.kernel off i.threads in
      elim (Bool-cases (is_thread t g)) [
        | inl mine ↦ runs _ (λ stop. ground (arith, e, mine, f, stop))
        | inr other ↦ runs _ (λ stop. ground (arith, e, other, f, stop))
      ]

finish-Runs : (t spl : ℕ) (m : Result) → Runs m → Runs (m >>= finish t spl)
unfolding finish
finish-Runs t spl m (es, s', e) = (es, leave t spl s', rw e)

self_is_thread : (t : ℕ) → is_thread t (some t) ≡ true
self_is_thread t = ground arith

held_Runs :
    (t c l : ℕ) (s : System) (m : Result)
    → Holding s t c l
    → Runs m
    → Runs (as_cv c s >> (do held ← lock_do_i_hold t l s; assert held; m))
unfolding as_cv lock_do_i_hold
held_Runs t c l s m (at, (h, e)) (es, s', f) =
    runs _ (λ stop. ground (arith, at, e, self_is_thread t, f, stop))

wake_then-Runs :
    (t spl : ℕ) (s : System) (m : Outcome Kernel) (k' : Kernel)
    → m ≡ done k'
    → Runs (wake_then m t spl s)
unfolding wake_then with_kernel
wake_then-Runs t spl s m k' e = ([], leave t spl (record s { kernel = k' }), rw e)

wait_body-Runs :
    (mem : Bool) (t c l spl : ℕ) (s : System) {running sleeping : List ℕ}
    → Sound s t running sleeping
    → 0 < s.kernel.curspl
    → (h : Bool) → s.objects l ≡ lock h (some t)
    → Other running
    → Runs (wait_body mem t c l spl s)
unfolding wait_body release_body with_kernel
wait_body-Runs mem t c l spl s {running} {sleeping} i off h e other =
    let (es1, s1, f) = release_body-Runs mem t s i off l h (some t) e in
    let (more, left, i1, off1) = release_body-Stays mem t s i off l es1 s1 f in
    let (es2, s2, g) =
      sleep_then-Runs mem t c (in_acquire l spl) s1 (running ++ more) left i1 off1
        (omega (arith, length-append running more)) in
    (es1, s2, rw (f, g))

module _ (mem : Bool) (t : ℕ) (s : System) {running sleeping : List ℕ}
    (i : Sound s t running sleeping) where
  start-Runs : (c : Call) → CanCall s t running c → Runs (start mem t c s)
  unfolding start
  start-Runs (p a) can =
      let (es, s', e) =
        p_loop-Runs mem t (splhigh s) (splhigh-Sound i) (omega arith) a s.kernel.curspl can in
      (es, s', ground (arith, i.outside, e))
  start-Runs (v a) (n, at, small) =
      finish-Runs t s.kernel.curspl _
        (v_body-Runs mem t (splhigh s) (splhigh-Sound i) (omega arith) a n at small)
  start-Runs (acquire a) can =
      acquire_loop-Runs mem t (splhigh s) (splhigh-Sound i) (omega arith) a s.kernel.curspl can
  start-Runs (release a) (h, g, at) =
      finish-Runs t s.kernel.curspl _
        (release_body-Runs mem t (splhigh s) (splhigh-Sound i) (omega arith) a h g at)
  start-Runs (wait c l) (holding, other) = held_Runs t c l s _ holding (
      wait_body-Runs mem t c l s.kernel.curspl (splhigh s) (splhigh-Sound i) (omega arith)
        holding.1.0 holding.1.1 other)
  start-Runs (signal c l) holding =
      let (k', e, _, _, _, _) =
        thread_wakeup_one-Threads mem c (splhigh s).kernel (omega arith)
          (splhigh-Sound i).threads in
      held_Runs t c l s _ holding (wake_then-Runs t s.kernel.curspl s _ k' e)
  start-Runs (broadcast c l) holding =
      let (k', e, _, _, _, _) =
        thread_wakeup-Threads mem c (splhigh s).kernel (omega arith) (splhigh-Sound i).threads in
      held_Runs t c l s _ holding (wake_then-Runs t s.kernel.curspl s _ k' e)
  start-Runs yield can =
      let (k', e, _, _, _, _) = thread_yield-Threads mem s.kernel i.threads in
      ([], record s { kernel = k'; pc = update s.pc t (in_yield s.kernel.curspl) }, rw e)

  go_on-Runs :
      (at : Pc) (c : Call)
      → (at ≡ idle) ⊎ (0 < s.kernel.curspl)
      → CanStep s t running at c
      → Runs (go_on mem t at c s)
  unfolding go_on
  go_on-Runs idle c l can = start-Runs c can
  go_on-Runs (in_p a spl) c (inl e) can = ground (arith, e)
  go_on-Runs (in_p a spl) c (inr off) can =
      p_loop-Runs mem t (woken t s) (woken-Sound i) off a spl can
  go_on-Runs (in_acquire a spl) c (inl e) can = ground (arith, e)
  go_on-Runs (in_acquire a spl) c (inr off) can =
      acquire_loop-Runs mem t (woken t s) (woken-Sound i) off a spl can
  go_on-Runs (in_yield spl) c l can = ([], leave t spl s, refl)

  -- In a sound state the running thread can step, whatever memory there is, if the call or the loop in
  -- which it stands finds what it asks for: no assertion of the kernel's own lists fails.
  pub step-Runs : (c : Call) → CanStep s t running (s.pc t) c → Runs (step mem c s)
  unfolding step
  step-Runs c can =
      let (es, s', e) = go_on-Runs (s.pc t) c i.level can in
      (es, s', ground (arith, i.threads.current, e))
