-- ===== src/Thread/Threads.antt =====
-- kern/thread/thread.c: the threads of the kernel as a running one, a list of those that can run, and
-- a list of those that sleep, and what the switches and the wakeups do to these.
use operating_system.Prelude.{
  ℕ, ◌+◌, ◌≤◌, ◌<◌, ◌≡◌, refl, inl, inr, Bool, false, not, some, List, [], ◌∷◌, ◌++◌, arith, length,
  length-append, Bool-cases, if◌then◌else◌, ◌==◌, Outcome, done, halt, spl_high,
}
use operating_system.Array
use operating_system.Array.{Array}
use operating_system.Array.Refine.{add-Holds}
use operating_system.Queue
use operating_system.Queue.{Queue}
use operating_system.Queue.Refine.{remhead-Holds_nothing}
use operating_system.Thread.Defs.{Kernel, sleeps_on, thread_yield, thread_sleep, thread_wakeup}
use operating_system.Thread.Wakeup.{select, thread_wakeup-Holds}
use operating_system.Thread.Switch.{
  thread_yield-Holds, thread_sleep-Holds, thread_sleep_lem, mi_switch_idle,
}

-- The thread `cur` runs; there is room in both lists for all threads.
pub record Threads (k : Kernel) (cur : ℕ) (running sleeping : List ℕ) : Type 0 where
  pub current : k.curthread ≡ some cur
  pub ready : Queue.Holds k.runqueue running
  pub asleep : Array.Holds k.sleepers sleeping
  pub room : length running + length sleeping + 1 < k.runqueue.size
  pub space : length running + length sleeping + 1 ≤ k.sleepers.max

-- Which thread runs next, where `cur` goes to the end of the list.
abbrev pub first_of : List ℕ → ℕ → ℕ
first_of [] cur = cur
first_of (x ∷ xs) cur = x

abbrev pub rest_of : List ℕ → ℕ → List ℕ
rest_of [] cur = []
rest_of (x ∷ xs) cur = xs ++ (cur ∷ [])

rotated : (xs : List ℕ) (cur : ℕ) → xs ++ (cur ∷ []) ≡ first_of xs cur ∷ rest_of xs cur
rotated [] cur = refl
rotated (x ∷ xs) cur = refl

length-rest_of : (xs : List ℕ) (cur : ℕ) → length (rest_of xs cur) ≡ length xs
length-rest_of [] cur = refl
length-rest_of (x ∷ xs) cur = omega (arith, length-append xs (cur ∷ []))

pub thread_yield-Threads :
    (mem : Bool) (k : Kernel) {cur : ℕ} {running sleeping : List ℕ}
    → Threads k cur running sleeping
    → (k' : Kernel) × (thread_yield mem k ≡ done k')
      × Threads k' (first_of running cur) (rest_of running cur) sleeping
      × (k'.sleepaddr ≡ k.sleepaddr)
      × (k'.curspl ≡ spl_high)
      × (k'.in_interrupt ≡ k.in_interrupt)
thread_yield-Threads mem k {cur} {running} {sleeping} th =
    let (q', e, hq', size) =
      thread_yield-Holds mem k th.current th.ready (omega (arith, th.room)) (rotated running cur) in
    (
      _,
      e,
      record {
        current = refl;
        ready = hq';
        asleep = th.asleep;
        room = omega (arith, th.room, length-rest_of running cur);
        space = omega (arith, th.space, length-rest_of running cur);
      },
      refl,
      refl,
      refl,
    )

pub thread_sleep-Threads :
    (mem : Bool) (addr : ℕ) (k : Kernel) {cur next : ℕ} {rest sleeping : List ℕ}
    → k.in_interrupt ≡ false
    → 0 < k.curspl
    → Threads k cur (next ∷ rest) sleeping
    → (k' : Kernel) × (thread_sleep mem addr k ≡ done k')
      × Threads k' next rest (sleeping ++ (cur ∷ []))
      × (k'.sleepaddr ≡ (λ t. if t == cur then some addr else k.sleepaddr t))
      × (k'.curspl ≡ k.curspl)
      × (k'.in_interrupt ≡ k.in_interrupt)
thread_sleep-Threads mem addr k {cur} {next} {rest} {sleeping} outside off th =
    let (s', q', e, hs', hq', size, grown) =
      thread_sleep-Holds mem addr k outside off th.current th.asleep
        (inr (omega (arith, th.space, th.asleep.count))) th.ready in
    (
      _,
      e,
      record {
        current = refl;
        ready = hq';
        asleep = hs';
        room = omega (arith, th.room, length-append sleeping (cur ∷ []));
        space = omega (arith, th.space, length-append sleeping (cur ∷ []));
      },
      refl,
      refl,
      refl,
    )

-- With no other thread that can run, the kernel idles until an interrupt.
pub thread_sleep-idle :
    (mem : Bool) (addr : ℕ) (k : Kernel) {cur : ℕ} {sleeping : List ℕ}
    → k.in_interrupt ≡ false
    → 0 < k.curspl
    → Threads k cur [] sleeping
    → thread_sleep mem addr k ≡ halt
thread_sleep-idle mem addr k {cur} outside off th =
    let (s', e1, _, _) =
      add-Holds mem cur th.asleep (inr (omega (arith, th.space, th.asleep.count))) in
    thread_sleep_lem mem addr k outside th.current
      (mi_switch_idle mem _ off th.current e1 (remhead-Holds_nothing th.ready))

length-select-not :
    (p : ℕ → Bool) (xs : List ℕ)
    → length (select p xs) + length (select (λ t. not (p t)) xs) ≡ length xs
length-select-not p [] = refl
length-select-not p (x ∷ xs) = elim (Bool-cases (p x)) [
  | inl e ↦ rw e (omega (arith, length-select-not p xs))
  | inr e ↦ rw e (omega (arith, length-select-not p xs))
]

-- What both wakeups do: the threads `chosen` of the sleepers go to the end of the list.
abbrev pub Woke : Outcome Kernel → Kernel → ℕ → List ℕ → List ℕ → Type 0
Woke m k cur running left =
    (k' : Kernel) × (m ≡ done k')
    × Threads k' cur running left
    × (k'.sleepaddr ≡ k.sleepaddr)
    × (k'.curspl ≡ k.curspl)
    × (k'.in_interrupt ≡ k.in_interrupt)

module _ (mem : Bool) (addr : ℕ) (k : Kernel) {cur : ℕ} {running sleeping : List ℕ}
    (off : 0 < k.curspl) (th : Threads k cur running sleeping) where
  abbrev on_addr : ℕ → Bool
  on_addr = sleeps_on k.sleepaddr addr

  pub thread_wakeup-Threads :
      Woke
        (thread_wakeup mem addr k)
        k
        cur
        (running ++ select on_addr sleeping)
        (select (λ t. not (on_addr t)) sleeping)
  thread_wakeup-Threads =
      let sum = length-select-not on_addr sleeping in
      let len = length-append running (select on_addr sleeping) in
      let (s', q', e, hs', hq', size, max) =
        thread_wakeup-Holds mem addr k off th.asleep th.ready (omega (arith, th.room)) in
      (
        _,
        e,
        record {
          current = th.current;
          ready = hq';
          asleep = hs';
          room = omega (arith, th.room);
          space = omega (arith, th.space);
        },
        refl,
        refl,
        refl,
      )
