-- ===== src/Synch/Soundness.antt =====
-- kern/thread/synch.c: no wakeup is lost.
use mathlib.Core.Path.{subst}
use native.Mathlib.Decide.{ℕ_discrete}
use operating_system.Prelude.{
  ℕ, ◌<◌, ◌≡◌, sym, ap, ◌∙◌, ◌⊎◌, inl, inr, Bool, false, List, ◌++◌, arith, Outcome, done, ◌>>=◌,
  ◌>>◌, Outcome-cases, assert, Bool-cases,
}
use operating_system.Thread.{Kernel}
use operating_system.Thread.Threads.{
  Woke, first_of, rest_of, thread_yield-Threads, thread_wakeup-Threads,
}
use operating_system.Thread.WakeupOne.{thread_wakeup_one-Threads}
use operating_system.Synch.Defs.{
  Object, cv, Pc, idle, in_p, in_acquire, in_yield, System, Event, Call, p, v, acquire, release,
  wait, signal, broadcast, yield, update, Result, splhigh, leave, woken, sleep_then, with_kernel,
  release_body, lock_do_i_hold, as_cv, finish, wake_then, wait_body, start, go_on, step, Run,
  nothing, then_step,
}
use operating_system.Synch.Acts.{Object-cases, Act, stay, lower, raise, get, give, release_body-Act}
use operating_system.Synch.Blocked.{All, All-map, All-select, All-but_first, Shut, Blocked}
use operating_system.Synch.Wakeups.{
  Sound, IsSound, Keeps, Stays, sleep_then-Keeps, splhigh-Sound, leave-Sound, woken-Sound,
  Threads-set, p_loop-Keeps, acquire_loop-Keeps, v_body-Stays, release_body-Stays,
}

finish-Keeps :
    (t spl : ℕ) (running : List ℕ) (m : Result) → Stays t running m → Keeps (m >>= finish t spl)
unfolding finish
finish-Keeps t spl running m stays es s' h = elim (Outcome-cases m) [
  | inl ((es1, s1), e) ↦
      let (more, sleeping, i, off) = stays es1 s1 e in
      let f : done (es1, leave t spl s1) ≡ done (es, s') = rw e at h in
      let g : leave t spl s1 ≡ s' = ground (arith, f) in
      subst IsSound g (t, running ++ more, sleeping, leave-Sound i spl)
  | inr e ↦ ground (arith, e, h)
]

Act-cv :
    {t : ℕ} {o o' : ℕ → Object} {es : List Event} (c : ℕ) → Act t o o' es → o c ≡ cv → o' c ≡ cv
Act-cv c (stay same e) at = ap (λ f. f c) same ∙ at
Act-cv c (lower b m before after e) at =
    ap (λ f. f c) after
    ∙ elim (ℕ_discrete b c) [ yes y ↦ ground (arith, y, before, at) | no n ↦ ground (arith, n, at) ]
Act-cv c (raise b m before after e) at =
    ap (λ f. f c) after
    ∙ elim (ℕ_discrete b c) [ yes y ↦ ground (arith, y, before, at) | no n ↦ ground (arith, n, at) ]
Act-cv c (get b g before after e) at =
    ap (λ f. f c) after
    ∙ elim (ℕ_discrete b c) [ yes y ↦ ground (arith, y, before, at) | no n ↦ ground (arith, n, at) ]
Act-cv c (give b h before after e) at =
    ap (λ f. f c) after
    ∙ elim (ℕ_discrete b c) [ yes y ↦ ground (arith, y, before, at) | no n ↦ ground (arith, n, at) ]

wait_body-Keeps :
    (mem : Bool) (t c l spl : ℕ) (s : System) (running : List ℕ)
    → s.objects c ≡ cv
    → Stays t running (release_body mem t l s)
    → Keeps (wait_body mem t c l spl s)
unfolding wait_body
wait_body-Keeps mem t c l spl s running is_cv stays es s' h =
    elim (Outcome-cases (release_body mem t l s)) [
      | inl ((es1, s1), e) ↦ elim (Outcome-cases (sleep_then mem t c (in_acquire l spl) s1)) [
        | inl ((es2, s2), f) ↦
            let g : ◌≡◌ {A = Result} (done (es1, s2)) (done (es, s')) = ground (arith, e, f, h) in
            let same : s2 ≡ s' = ground (arith, g) in
            let (more, sleeping, i, off) = stays es1 s1 e in
            let still : s1.objects c ≡ cv = Act-cv c (release_body-Act mem t s l e) is_cv in
            subst IsSound same (
              sleep_then-Keeps mem t c (in_acquire l spl) s1 (running ++ more) sleeping i off
                (subst Shut (sym still) tt) es2 s2 f)
        | inr f ↦ ground (arith, e, f, h)
      ]
      | inr e ↦ ground (arith, e, h)
    ]

-- The kernel that a wakeup leaves, where every thread that still sleeps slept before.
wake_then-Keeps :
    (t spl : ℕ) (s : System) (m : Outcome Kernel) (running left : List ℕ)
    → s.kernel.in_interrupt ≡ false
    → Woke m (splhigh s).kernel t running left
    → All (Blocked s.objects s.kernel.sleepaddr) left
    → Keeps (wake_then m t spl s)
unfolding wake_then with_kernel
wake_then-Keeps t spl s m running left outside (k', e, th', addr', spl', int') all es s' h =
    let g : leave t spl (record s { kernel = k' }) ≡ s' = ground (arith, e, h) in
    subst IsSound g (
      t,
      running,
      left,
      record {
        threads = Threads-set spl k'.sleepaddr th';
        blocked = subst (λ f. All (Blocked s.objects f) left) (sym addr') all;
        level = inl (ground arith);
        outside = int' ∙ outside;
      },
    )

held-Keeps :
    (t l : ℕ) (s : System) (m : Result)
    → Keeps m
    → Keeps (do held ← lock_do_i_hold t l s; assert held; m)
held-Keeps t l s m keeps es s' h = elim (Outcome-cases (lock_do_i_hold t l s)) [
  | inl (b, e) ↦ elim (Bool-cases b) [
    | inl yes_held ↦ keeps es s' (ground (arith, e, yes_held, h))
    | inr not_held ↦ ground (arith, e, not_held, h)
  ]
  | inr e ↦ ground (arith, e, h)
]

as_cv-Keeps :
    (c : ℕ) (s : System) (m : Result) → (s.objects c ≡ cv → Keeps m) → Keeps (as_cv c s >> m)
unfolding as_cv
as_cv-Keeps c s m keeps es s' h = elim (Object-cases (s.objects c)) [
  | inl (n, e) ↦ ground (arith, e, h)
  | inr (inl (b, g, e)) ↦ ground (arith, e, h)
  | inr (inr e) ↦ keeps e es s' (ground (arith, e, h))
]

module _ (mem : Bool) (t : ℕ) (s : System) {running sleeping : List ℕ}
    (i : Sound s t running sleeping) where
  start-Keeps : (c : Call) → Keeps (start mem t c s)
  unfolding start
  start-Keeps (p a) = λ es s' h.
      p_loop-Keeps mem t (splhigh s) (splhigh-Sound i) (omega arith) a s.kernel.curspl es s'
        (ground (arith, i.outside, h))
  start-Keeps (v a) =
      finish-Keeps t s.kernel.curspl running _
        (v_body-Stays mem t (splhigh s) (splhigh-Sound i) (omega arith) a)
  start-Keeps (acquire a) =
      acquire_loop-Keeps mem t (splhigh s) (splhigh-Sound i) (omega arith) a s.kernel.curspl
  start-Keeps (release a) =
      finish-Keeps t s.kernel.curspl running _
        (release_body-Stays mem t (splhigh s) (splhigh-Sound i) (omega arith) a)
  start-Keeps (wait c l) = as_cv-Keeps c s _ (λ is_cv. held-Keeps t l s _ (
      wait_body-Keeps mem t c l s.kernel.curspl (splhigh s) running is_cv
        (release_body-Stays mem t (splhigh s) (splhigh-Sound i) (omega arith) l)))
  start-Keeps (signal c l) = as_cv-Keeps c s _ (λ is_cv. held-Keeps t l s _ (
      wake_then-Keeps t s.kernel.curspl s _ _ _ i.outside
        (thread_wakeup_one-Threads mem c (splhigh s).kernel (omega arith) (splhigh-Sound i).threads)
        (All-but_first _ _ sleeping i.blocked)))
  start-Keeps (broadcast c l) = as_cv-Keeps c s _ (λ is_cv. held-Keeps t l s _ (
      wake_then-Keeps t s.kernel.curspl s _ _ _ i.outside
        (thread_wakeup-Threads mem c (splhigh s).kernel (omega arith) (splhigh-Sound i).threads)
        (All-map _ _ _ (λ u b. b.0) (All-select _ _ sleeping i.blocked))))
  start-Keeps yield = λ es s' h.
      let (k', e, th', addr', spl', int') = thread_yield-Threads mem s.kernel i.threads in
      let g : record s { kernel = k'; pc = update s.pc t (in_yield s.kernel.curspl) } ≡ s' =
        ground (arith, e, h) in
      subst IsSound g (
        first_of running t,
        rest_of running t,
        sleeping,
        record {
          threads = th';
          blocked = subst (λ f. All (Blocked s.objects f) sleeping) (sym addr') i.blocked;
          level = inr (omega (arith, spl'));
          outside = int' ∙ i.outside;
        },
      )

  go_on-Keeps :
      (at : Pc) (c : Call) → (at ≡ idle) ⊎ (0 < s.kernel.curspl) → Keeps (go_on mem t at c s)
  unfolding go_on
  go_on-Keeps idle c l = start-Keeps c
  go_on-Keeps (in_p a spl) c (inl e) = ground (arith, e)
  go_on-Keeps (in_p a spl) c (inr off) = p_loop-Keeps mem t (woken t s) (woken-Sound i) off a spl
  go_on-Keeps (in_acquire a spl) c (inl e) = ground (arith, e)
  go_on-Keeps (in_acquire a spl) c (inr off) =
      acquire_loop-Keeps mem t (woken t s) (woken-Sound i) off a spl
  go_on-Keeps (in_yield spl) c l = λ es s' h.
      let g : leave t spl s ≡ s' = ground (arith, h) in
      subst IsSound g (t, running, sleeping, leave-Sound i spl)

pub step-IsSound :
    (mem : Bool) (c : Call) (s : System) {es : List Event} {s' : System}
    → IsSound s
    → step mem c s ≡ done (es, s')
    → IsSound s'
unfolding step
step-IsSound mem c s {es} {s'} (t, running, sleeping, i) h =
    go_on-Keeps mem t s i (s.pc t) c i.level es s' (ground (arith, i.threads.current, h))

-- No wakeup is lost. In every run from a sound state, the running thread, the threads that can run and the
-- sleepers are those that the kernel's lists hold, with room for all of them, and a thread that sleeps on a
-- semaphore finds its count at 0, and one that sleeps on a lock finds it held.
pub Run-IsSound : {first s : System} {es : List Event} → IsSound first → Run first es s → IsSound s
Run-IsSound sound nothing = sound
Run-IsSound sound (then_step r mem c h all) = step-IsSound mem c _ (Run-IsSound sound r) h
