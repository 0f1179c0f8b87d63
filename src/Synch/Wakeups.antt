-- ===== src/Synch/Wakeups.antt =====
-- kern/thread/synch.c: the waiting loops, V and the release of a lock keep the sleepers blocked.
use mathlib.Core.Path.{subst}
use mathlib.Core.List.{append-nil}
use operating_system.Prelude.{
  ℕ, suc, ◌+◌, ◌-◌, ◌^◌, ◌<◌, ◌≡◌, refl, sym, ◌∙◌, ◌⊎◌, inl, inr, Bool, true, false, not, Option,
  none, some, List, [], ◌∷◌, ◌++◌, arith, ltb, ◌==◌, ==_iff, done, ◌>>=◌, Bool-cases, spl_high,
}
use operating_system.Thread.{Kernel}
use operating_system.Thread.Defs.{sleeps_on, thread_wakeup}
use operating_system.Thread.Wakeup.{select}
use operating_system.Thread.Threads.{
  Threads, thread_sleep-Threads, thread_sleep-idle, thread_wakeup-Threads,
}
use operating_system.Synch.Defs.{
  Object, semaphore, lock, Pc, idle, in_p, in_acquire, System, Event, raised, released, update,
  Result, splhigh, leave, woken, is_thread, sleep_then, with_kernel, p_loop, acquire_loop, v_body,
  release_body,
}
use operating_system.Synch.Acts.{Object-cases}
use operating_system.Synch.Blocked.{
  All, All-map, All-snoc, All-select, Shut, Blocked, Blocked-sleep, Blocked-sleeper, Blocked-close,
  Blocked-lower, Blocked-open, Blocked-woken,
}

-- The threads of the kernel, with every sleeper on an object that is shut; a thread that goes on behind
-- a switch does so with interrupts off.
pub record Sound (s : System) (cur : ℕ) (running sleeping : List ℕ) : Type 0 where
  pub threads : Threads s.kernel cur running sleeping
  pub blocked : All (Blocked s.objects s.kernel.sleepaddr) sleeping
  pub level : (s.pc cur ≡ idle) ⊎ (0 < s.kernel.curspl)
  pub outside : s.kernel.in_interrupt ≡ false

abbrev pub IsSound : System → Type 0
IsSound s = (cur : ℕ) × (running : List ℕ) × (sleeping : List ℕ) × Sound s cur running sleeping

abbrev pub Keeps : Result → Type 0
Keeps m = (es : List Event) (s' : System) → m ≡ done (es, s') → IsSound s'

pub sleep_then-Keeps :
    (mem : Bool) (t a : ℕ) (next : Pc) (s : System) (running sleeping : List ℕ)
    → Sound s t running sleeping
    → 0 < s.kernel.curspl
    → Shut (s.objects a)
    → Keeps (sleep_then mem t a next s)
unfolding sleep_then
sleep_then-Keeps mem t a next s [] sleeping i off shut es s' h =
    ground (arith, thread_sleep-idle mem a s.kernel i.outside off i.threads, h)
sleep_then-Keeps mem t a next s (n ∷ rest) sleeping i off shut es s' h =
    let (k', e, th', addr', spl', int') =
      thread_sleep-Threads mem a s.kernel i.outside off i.threads in
    let f : ◌≡◌ {A = Result} (done ([], record s { kernel = k'; pc = update s.pc t next }))
        (done (es, s')) =
      ground (arith, e, h) in
    let g : record s { kernel = k'; pc = update s.pc t next } ≡ s' = ground (arith, f) in
    subst IsSound g (
      n,
      rest,
      sleeping ++ (t ∷ []),
      record {
        threads = th';
        blocked =
            subst (λ f. All (Blocked s.objects f) (sleeping ++ (t ∷ []))) (sym addr')
              (All-snoc _ sleeping t
                (All-map _ _ sleeping (λ u. Blocked-sleep s.objects s.kernel.sleepaddr a t u shut)
                  i.blocked)
                (Blocked-sleeper s.objects s.kernel.sleepaddr a t shut));
        level = inr (omega (arith, spl'));
        outside = int' ∙ i.outside;
      },
    )

-- Outside of the lists, the level and the sleeping address of the running thread may change.
pub Threads-set :
    {k : Kernel} {cur : ℕ} {running sleeping : List ℕ} (spl : ℕ) (f : ℕ → Option ℕ)
    → Threads k cur running sleeping
    → Threads (record k { curspl = spl; sleepaddr = f }) cur running sleeping
Threads-set spl f th = record {
  current = th.current;
  ready = th.ready;
  asleep = th.asleep;
  room = th.room;
  space = th.space;
}

module _ {s : System} {t : ℕ} {running sleeping : List ℕ} (i : Sound s t running sleeping) where
  pub splhigh-Sound : Sound (splhigh s) t running sleeping
  splhigh-Sound = record {
    threads = Threads-set spl_high s.kernel.sleepaddr i.threads;
    blocked = i.blocked;
    level = inr (omega arith);
    outside = i.outside;
  }

  pub leave-Sound : (spl : ℕ) → Sound (leave t spl s) t running sleeping
  leave-Sound spl = record {
    threads = Threads-set spl s.kernel.sleepaddr i.threads;
    blocked = i.blocked;
    level = inl (ground arith);
    outside = i.outside;
  }

  pub woken-Sound : Sound (woken t s) t running sleeping
  woken-Sound = record {
    threads = Threads-set s.kernel.curspl (update s.kernel.sleepaddr t none) i.threads;
    blocked = All-map _ _ sleeping (Blocked-woken s.objects s.kernel.sleepaddr t) i.blocked;
    level = i.level;
    outside = i.outside;
  }

  -- A change of the object at `a` that leaves it shut, or finds nobody asleep on it.
  pub objects-Sound :
      (a : ℕ) (x : Object)
      → ((u : ℕ)
          → Blocked s.objects s.kernel.sleepaddr u
          → Blocked (update s.objects a x) s.kernel.sleepaddr u)
      → Sound (record s { objects = update s.objects a x }) t running sleeping
  objects-Sound a x f = record {
    threads = i.threads;
    blocked = All-map _ _ sleeping f i.blocked;
    level = i.level;
    outside = i.outside;
  }

-- The same thread runs on, with interrupts off, and those that could run before still can.
abbrev pub Here : ℕ → List ℕ → System → Type 0
Here t running s =
    (more : List ℕ) × (sleeping : List ℕ) × Sound s t (running ++ more) sleeping
    × (0 < s.kernel.curspl)

abbrev pub Stays : ℕ → List ℕ → Result → Type 0
Stays t running m = (es : List Event) (s' : System) → m ≡ done (es, s') → Here t running s'

module _ (mem : Bool) (t : ℕ) (s : System) {running sleeping : List ℕ}
    (i : Sound s t running sleeping) (off : 0 < s.kernel.curspl) where
  -- The object at `a` opens, and all that sleep on it wake.
  pub open_and_wake :
      (a : ℕ) (x : Object) (new : List Event)
      → Stays t running (do
        s' ←
            with_kernel (thread_wakeup mem a s.kernel) (record s { objects = update s.objects a x })
        done (new, s'))
  unfolding with_kernel
  open_and_wake a x new es s' h =
      let (k', e, th', addr', spl', int') = thread_wakeup-Threads mem a s.kernel off i.threads in
      let g : record s { kernel = k'; objects = update s.objects a x } ≡ s' =
        ground (arith, e, h) in
      let test : ℕ → Bool = λ u. not (sleeps_on s.kernel.sleepaddr a u) in
      let left = All-select (Blocked s.objects s.kernel.sleepaddr) test sleeping i.blocked in
      let woken_all : All (Blocked (update s.objects a x) s.kernel.sleepaddr)
          (select test sleeping) =
        All-map _ _ (select test sleeping) (Blocked-open s.objects s.kernel.sleepaddr a x) left in
      subst (Here t running) g (
        _,
        _,
        record {
          threads = th';
          blocked =
              subst (λ f. All (Blocked (update s.objects a x) f) (select test sleeping)) (sym addr')
                woken_all;
          level = inr (omega (arith, spl'));
          outside = int' ∙ i.outside;
        },
        omega (arith, spl'),
      )

  pub p_loop-Keeps : (a spl : ℕ) → Keeps (p_loop mem t a spl s)
  unfolding p_loop
  p_loop-Keeps a spl es s' h = elim (Object-cases (s.objects a)) [
    | inl (n, e) ↦ elim (Bool-cases (n == 0)) [
      | inl z ↦
          sleep_then-Keeps mem t a (in_p a spl) s running sleeping i off
            (let n0 : n ≡ 0 = (==_iff n 0).0 z in subst Shut (sym e) n0) es s'
            (ground (arith, e, z, h))
      | inr nz ↦
          let up : s.objects a ≡ semaphore (suc (n - 1)) = ground (arith, e, nz) in
          let s1 : System = record s { objects = update s.objects a (semaphore (n - 1)) } in
          let g : leave t spl s1 ≡ s' = ground (arith, e, nz, h) in
          subst IsSound g (
            t,
            running,
            sleeping,
            leave-Sound
                (objects-Sound i a (semaphore (n - 1))
                  (λ u. Blocked-lower s.objects s.kernel.sleepaddr a (n - 1) u up))
                spl,
          )
    ]
    | inr (inl (b, g, e)) ↦ ground (arith, e, h)
    | inr (inr e) ↦ ground (arith, e, h)
  ]

  pub acquire_loop-Keeps : (a spl : ℕ) → Keeps (acquire_loop mem t a spl s)
  unfolding acquire_loop
  acquire_loop-Keeps a spl es s' h = elim (Object-cases (s.objects a)) [
    | inl (n, e) ↦ ground (arith, e, h)
    | inr (inl (b, g, e)) ↦ elim (Bool-cases b) [
      | inl held ↦
          sleep_then-Keeps mem t a (in_acquire a spl) s running sleeping i off
            (subst Shut (sym e) held) es s' (ground (arith, e, held, h))
      | inr free ↦
          let s1 : System = record s { objects = update s.objects a (lock true (some t)) } in
          let g : leave t spl s1 ≡ s' = ground (arith, e, free, h) in
          subst IsSound g (
            t,
            running,
            sleeping,
            leave-Sound
                (objects-Sound i a (lock true (some t))
                  (λ u. Blocked-close s.objects s.kernel.sleepaddr a (lock true (some t)) u refl))
                spl,
          )
    ]
    | inr (inr e) ↦ ground (arith, e, h)
  ]

  pub v_body-Stays : (a : ℕ) → Stays t running (v_body mem t a s)
  unfolding v_body
  v_body-Stays a es s' h = elim (Object-cases (s.objects a)) [
    | inl (n, e) ↦ elim (Bool-cases (ltb (n + 1) (2 ^ 31))) [
      | inl z ↦
          open_and_wake a (semaphore (n + 1)) (raised t a ∷ []) es s' (ground (arith, e, z, h))
      | inr nz ↦ ground (arith, e, nz, h)
    ]
    | inr (inl (b, g, e)) ↦ ground (arith, e, h)
    | inr (inr e) ↦ ground (arith, e, h)
  ]

  pub release_body-Stays : (a : ℕ) → Stays t running (release_body mem t a s)
  unfolding release_body
  release_body-Stays a es s' h = elim (Object-cases (s.objects a)) [
    | inl (n, e) ↦ ground (arith, e, h)
    | inr (inl (b, g, e)) ↦ elim (Bool-cases (is_thread t g)) [
      | inl mine ↦
          open_and_wake a (lock false none) (released t a ∷ []) es s' (ground (arith, e, mine, h))
      | inr other ↦
          (let same : s ≡ s' = ground (arith, e, other, h) in
            subst (Here t running) same
              ([], sleeping, subst (λ r. Sound s t r sleeping) (sym (append-nil running)) i, off))
    ]
    | inr (inr e) ↦ ground (arith, e, h)
  ]
