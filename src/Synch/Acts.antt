-- ===== src/Synch/Acts.antt =====
-- kern/thread/synch.c: each step of the code is one of five actions on the semaphores and locks.
use mathlib.Core.Path.{subst}
use operating_system.Prelude.{
  ℕ, suc, ◌+◌, ◌-◌, ◌^◌, ◌≡◌, refl, sym, ap, ◌∙◌, ◌⊎◌, inl, inr, Bool, true, false, not, Option,
  none, some, List, [], ◌∷◌, arith, ltb, ◌==◌, Outcome, done, ◌>>=◌, ◌>>◌, >>=-eq-done,
  Outcome-cases, assert, Bool-cases, Option-cases,
}
use operating_system.Thread.{Kernel}
use operating_system.Thread.Defs.{thread_sleep, thread_yield, thread_wakeup, thread_wakeup_one}
use operating_system.Synch.Defs.{
  Object, semaphore, lock, cv, Pc, idle, in_p, in_acquire, in_yield, System, Event, lowered, raised,
  acquired, released, Call, p, v, acquire, release, wait, signal, broadcast, yield, update, Result,
  splhigh, leave, woken, is_thread, sleep_then, with_kernel, p_loop, acquire_loop, v_body,
  release_body, lock_do_i_hold, as_cv, finish, wake_then, wait_body, start, go_on, step,
}

-- What the running thread `t` does to the objects: nothing, P, V, taking a free lock, giving up its own.
pub data Act (t : ℕ) (o o' : ℕ → Object) (es : List Event) : Type 0 where
  stay : o' ≡ o → es ≡ [] → Act t o o' es
  lower :
      (a n : ℕ)
      → o a ≡ semaphore (suc n)
      → o' ≡ update o a (semaphore n)
      → es ≡ lowered t a ∷ []
      → Act t o o' es
  raise :
      (a n : ℕ)
      → o a ≡ semaphore n
      → o' ≡ update o a (semaphore (suc n))
      → es ≡ raised t a ∷ []
      → Act t o o' es
  get :
      (a : ℕ) (g : Option ℕ)
      → o a ≡ lock false g
      → o' ≡ update o a (lock true (some t))
      → es ≡ acquired t a ∷ []
      → Act t o o' es
  give :
      (a : ℕ) (h : Bool)
      → o a ≡ lock h (some t)
      → o' ≡ update o a (lock false none)
      → es ≡ released t a ∷ []
      → Act t o o' es

pub Object-cases :
    (o : Object)
    → ((n : ℕ) × (o ≡ semaphore n)) ⊎ (((h : Bool) × (g : Option ℕ) × (o ≡ lock h g)) ⊎ (o ≡ cv))
Object-cases (semaphore n) = inl (n, refl)
Object-cases (lock h g) = inr (inl (h, g, refl))
Object-cases cv = inr (inr refl)

is_thread-eq : (t : ℕ) (g : Option ℕ) → is_thread t g ≡ true → g ≡ some t
is_thread-eq t none e = cc
is_thread-eq t (some u) e = ground arith

module _ (mem : Bool) (t : ℕ) (s : System) {es : List Event} {s' : System} where
  sleep_then_stays :
      (a : ℕ) (next : Pc)
      → sleep_then mem t a next s ≡ done (es, s')
      → (es ≡ []) × (s'.objects ≡ s.objects)
  unfolding sleep_then
  sleep_then_stays a next h =
      let (k, e, f) =
        >>=-eq-done (thread_sleep mem a s.kernel)
          (λ k. done ([], record s { kernel = k; pc = update s.pc t next })) h in
      ground (arith, f)

  p_loop-Act : (a spl : ℕ) → p_loop mem t a spl s ≡ done (es, s') → Act t s.objects s'.objects es
  unfolding p_loop
  p_loop-Act a spl h = elim (Object-cases (s.objects a)) [
    | inl (n, e) ↦ elim (Bool-cases (n == 0)) [
      | inl z ↦ (let (x, y) = sleep_then_stays a (in_p a spl) (ground (arith, e, z, h)) in stay y x)
      | inr nz ↦
          lower a (n - 1) (ground (arith, e, nz)) (ground (arith, e, nz, h))
            (ground (arith, e, nz, h))
    ]
    | inr (inl (b, g, e)) ↦ ground (arith, e, h)
    | inr (inr e) ↦ ground (arith, e, h)
  ]

  acquire_loop-Act :
      (a spl : ℕ) → acquire_loop mem t a spl s ≡ done (es, s') → Act t s.objects s'.objects es
  unfolding acquire_loop
  acquire_loop-Act a spl h = elim (Object-cases (s.objects a)) [
    | inl (n, e) ↦ ground (arith, e, h)
    | inr (inl (b, g, e)) ↦ elim (Bool-cases b) [
      | inl z ↦
          (let (x, y) = sleep_then_stays a (in_acquire a spl) (ground (arith, e, z, h)) in stay y x)
      | inr nz ↦
          get a g (ground (arith, e, nz)) (ground (arith, e, nz, h)) (ground (arith, e, nz, h))
    ]
    | inr (inr e) ↦ ground (arith, e, h)
  ]

  v_body-Act : (a : ℕ) → v_body mem t a s ≡ done (es, s') → Act t s.objects s'.objects es
  unfolding v_body with_kernel
  v_body-Act a h = elim (Object-cases (s.objects a)) [
    | inl (n, e) ↦ elim (Bool-cases (ltb (n + 1) (2 ^ 31))) [
      | inl z ↦ elim (Outcome-cases (thread_wakeup mem a s.kernel)) [
        | inl (k, f) ↦ raise a n e (ground (arith, e, z, h, f)) (ground (arith, e, z, h, f))
        | inr f ↦ ground (arith, e, z, h, f)
      ]
      | inr nz ↦ ground (arith, e, nz, h)
    ]
    | inr (inl (b, g, e)) ↦ ground (arith, e, h)
    | inr (inr e) ↦ ground (arith, e, h)
  ]

  pub release_body-Act :
      (a : ℕ) → release_body mem t a s ≡ done (es, s') → Act t s.objects s'.objects es
  unfolding release_body with_kernel
  release_body-Act a h = elim (Object-cases (s.objects a)) [
    | inl (n, e) ↦ ground (arith, e, h)
    | inr (inl (b, g, e)) ↦ elim (Bool-cases (is_thread t g)) [
      | inl mine ↦ elim (Outcome-cases (thread_wakeup mem a s.kernel)) [
        | inl (k, f) ↦
            give a b (e ∙ ap (lock b) (is_thread-eq t g mine)) (ground (arith, e, mine, h, f))
              (ground (arith, e, mine, h, f))
        | inr f ↦ ground (arith, e, mine, h, f)
      ]
      | inr other ↦ stay (ground (arith, e, other, h)) (ground (arith, e, other, h))
    ]
    | inr (inr e) ↦ ground (arith, e, h)
  ]

abbrev Does : ℕ → (ℕ → Object) → Result → Type 0
Does t o m = (es : List Event) (s' : System) → m ≡ done (es, s') → Act t o s'.objects es

Act-eq :
    {t : ℕ} {o o1 o' : ℕ → Object} {es1 es : List Event}
    → Act t o o1 es1
    → o1 ≡ o'
    → es1 ≡ es
    → Act t o o' es
Act-eq {t} {o} {o1} {o'} {es1} {es} a e f =
    subst (λ x. Act t o x es) e (subst (λ x. Act t o o1 x) f a)

finish-Act : (t spl : ℕ) (o : ℕ → Object) (m : Result) → Does t o m → Does t o (m >>= finish t spl)
unfolding finish
finish-Act t spl o m act es s' h = elim (Outcome-cases m) [
  | inl ((es1, s1), e) ↦
      let f : done (es1, leave t spl s1) ≡ done (es, s') = rw e at h in
      Act-eq (act es1 s1 e) (ground (arith, f)) (ground (arith, f))
  | inr e ↦ ground (arith, e, h)
]

wake_then-Act :
    (t spl : ℕ) (s : System) (m : Outcome Kernel) → Does t s.objects (wake_then m t spl s)
unfolding wake_then with_kernel
wake_then-Act t spl s m es s' h = elim (Outcome-cases m) [
  | inl (k, e) ↦ stay (ground (arith, e, h)) (ground (arith, e, h))
  | inr e ↦ ground (arith, e, h)
]

wait_body-Act :
    (mem : Bool) (t c l spl : ℕ) (s : System) → Does t s.objects (wait_body mem t c l spl s)
unfolding wait_body
wait_body-Act mem t c l spl s es s' h = elim (Outcome-cases (release_body mem t l s)) [
  | inl ((es1, s1), e) ↦ elim (Outcome-cases (sleep_then mem t c (in_acquire l spl) s1)) [
    | inl ((es2, s2), f) ↦
        let g : ◌≡◌ {A = Result} (done (es1, s2)) (done (es, s')) = ground (arith, e, f, h) in
        let (none_new, same) = sleep_then_stays mem t s1 c (in_acquire l spl) f in
        Act-eq (release_body-Act mem t s l e) (sym same ∙ ground (arith, g)) (ground (arith, g))
    | inr f ↦ ground (arith, e, f, h)
  ]
  | inr e ↦ ground (arith, e, h)
]

-- With the lock in hand, a function goes on.
held_first :
    (t l : ℕ) (s : System) (m : Result)
    → Does t s.objects m
    → Does t s.objects (do held ← lock_do_i_hold t l s; assert held; m)
held_first t l s m act es s' h = elim (Outcome-cases (lock_do_i_hold t l s)) [
  | inl (b, e) ↦ elim (Bool-cases b) [
    | inl yes_held ↦ act es s' (ground (arith, e, yes_held, h))
    | inr not_held ↦ ground (arith, e, not_held, h)
  ]
  | inr e ↦ ground (arith, e, h)
]

as_cv_first :
    (t c : ℕ) (s : System) (m : Result) → Does t s.objects m → Does t s.objects (as_cv c s >> m)
as_cv_first t c s m act es s' h = elim (Outcome-cases (as_cv c s)) [
  | inl (u, e) ↦ act es s' (ground (arith, e, h))
  | inr e ↦ ground (arith, e, h)
]

start-Act : (mem : Bool) (t : ℕ) (c : Call) (s : System) → Does t s.objects (start mem t c s)
unfolding start
start-Act mem t (p a) s es s' h = elim (Bool-cases (not s.kernel.in_interrupt)) [
  | inl off ↦
      p_loop-Act mem t (splhigh s) {es = es} {s' = s'} a s.kernel.curspl (ground (arith, off, h))
  | inr on ↦ ground (arith, on, h)
]
start-Act mem t (v a) s es s' h =
    finish-Act t s.kernel.curspl s.objects (v_body mem t a (splhigh s))
      (λ es1 s1 e. v_body-Act mem t (splhigh s) a e) es s' h
start-Act mem t (acquire a) s es s' h = acquire_loop-Act mem t (splhigh s) a s.kernel.curspl h
start-Act mem t (release a) s es s' h =
    finish-Act t s.kernel.curspl s.objects (release_body mem t a (splhigh s))
      (λ es1 s1 e. release_body-Act mem t (splhigh s) a e) es s' h
start-Act mem t (wait c l) s es s' h =
    as_cv_first t c s _
      (held_first t l s (wait_body mem t c l s.kernel.curspl (splhigh s))
        (wait_body-Act mem t c l s.kernel.curspl (splhigh s)))
      es s' h
start-Act mem t (signal c l) s es s' h =
    as_cv_first t c s _
      (held_first t l s (wake_then (thread_wakeup_one mem c (splhigh s).kernel) t s.kernel.curspl s)
        (wake_then-Act t s.kernel.curspl s _))
      es s' h
start-Act mem t (broadcast c l) s es s' h =
    as_cv_first t c s _
      (held_first t l s (wake_then (thread_wakeup mem c (splhigh s).kernel) t s.kernel.curspl s)
        (wake_then-Act t s.kernel.curspl s _))
      es s' h
start-Act mem t yield s es s' h = elim (Outcome-cases (thread_yield mem s.kernel)) [
  | inl (k, e) ↦ stay (ground (arith, e, h)) (ground (arith, e, h))
  | inr e ↦ ground (arith, e, h)
]

go_on-Act :
    (mem : Bool) (t : ℕ) (at : Pc) (c : Call) (s : System) → Does t s.objects (go_on mem t at c s)
unfolding go_on
go_on-Act mem t idle c s es s' h = start-Act mem t c s es s' h
go_on-Act mem t (in_p a spl) c s es s' h = p_loop-Act mem t (woken t s) a spl h
go_on-Act mem t (in_acquire a spl) c s es s' h = acquire_loop-Act mem t (woken t s) a spl h
go_on-Act mem t (in_yield spl) c s es s' h = stay (ground (arith, h)) (ground (arith, h))

-- Each step that does not halt is one action of the thread that runs: it does nothing to the semaphores
-- and locks, or takes down a count that is above 0, or puts one up, or takes a lock that is free, or
-- gives up a lock that it holds, and reports exactly this.
pub step-Act :
    (mem : Bool) (c : Call) (s : System) {es : List Event} {s' : System}
    → step mem c s ≡ done (es, s')
    → (t : ℕ) × (s.kernel.curthread ≡ some t) × Act t s.objects s'.objects es
unfolding step
step-Act mem c s {es} {s'} h = elim (Option-cases s.kernel.curthread) [
  | inl e ↦ ground (arith, e, h)
  | inr (t, e) ↦ (t, e, go_on-Act mem t (s.pc t) c s es s' (ground (arith, e, h)))
]
