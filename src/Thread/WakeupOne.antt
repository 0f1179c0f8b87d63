-- ===== src/Thread/WakeupOne.antt =====
-- kern/thread/thread.c: `thread_wakeupOne`.
use mathlib.Core.Path.{subst}
use mathlib.Core.List.{append_assoc, append-nil}
use operating_system.Prelude.{
  ℕ, zero, suc, ◌+◌, ◌≤◌, ◌<◌, ◌≡◌, refl, sym, ap, ◌∙◌, Bool, true, false, Option, List, [], ◌∷◌,
  ◌++◌, arith, length, length-append, get_elem?_middle, pos, ltb, lt→ltb, Bool-cases, inl, inr,
  if◌then◌else◌, Outcome, done,
}
use operating_system.Array
use operating_system.Array.{Array}
use operating_system.Array.Refine.{getguy-Holds, getnum-Holds, or_halt}
use operating_system.Queue
use operating_system.Queue.{Queue}
use operating_system.Thread.Defs.{Kernel, sleeps_on, wakeup_one_loop, thread_wakeup_one}
use operating_system.Thread.Wakeup.{wake-Holds}
use operating_system.Thread.Threads.{Threads, Woke}

-- The first member of a list that a test picks, and the list without it.
abbrev pub first_such : (ℕ → Bool) → List ℕ → List ℕ
first_such p [] = []
first_such p (x ∷ xs) = if p x then x ∷ [] else first_such p xs

abbrev pub but_first : (ℕ → Bool) → List ℕ → List ℕ
but_first p [] = []
but_first p (x ∷ xs) = if p x then xs else x ∷ but_first p xs

first_such_one : (p : ℕ → Bool) (xs : List ℕ) → length (first_such p xs) ≤ 1
first_such_one p [] = omega arith
first_such_one p (x ∷ xs) = ground (arith, first_such_one p xs)

length-but_first :
    (p : ℕ → Bool) (xs : List ℕ) → length (first_such p xs) + length (but_first p xs) ≡ length xs
length-but_first p [] = refl
length-but_first p (x ∷ xs) = elim (Bool-cases (p x)) [
  | inl e ↦ rw e (omega arith)
  | inr e ↦ rw e (omega (arith, length-but_first p xs))
]

abbrev WokenOne :
    Outcome (Array ℕ × Queue ℕ) → (ℕ → Bool) → List ℕ → List ℕ → List ℕ → Array ℕ → Queue ℕ → Type 0
WokenOne m p pre rest ys s q =
    (s' : Array ℕ) × (q' : Queue ℕ) × (m ≡ done (s', q'))
    × Array.Holds s' (pre ++ but_first p rest)
    × Queue.Holds q' (ys ++ first_such p rest)
    × (q'.size ≡ q.size)
    × (s'.max ≡ s.max)

module _ (mem : Bool) (sleepaddr : ℕ → Option ℕ) (addr : ℕ) (s : Array ℕ) (q : Queue ℕ)
    (ys : List ℕ) where
  wakeup_one_loop-WokenOne :
      (n : ℕ) (pre rest : List ℕ)
      → length rest ≡ n
      → Array.Holds s (pre ++ rest)
      → Queue.Holds q ys
      → length ys + 1 < q.size
      → WokenOne
          (wakeup_one_loop mem sleepaddr addr n (length pre) (s, q))
          (sleeps_on sleepaddr addr)
          pre
          rest
          ys
          s
          q
  unfolding wakeup_one_loop
  wakeup_one_loop-WokenOne zero pre [] len hs hq room = (
    s,
    q,
    (let e : ltb (length pre) (Array.getnum s) ≡ false =
          ground (arith, getnum-Holds hs, length-append {A = ℕ} pre []) in
        rw e),
    hs,
    subst (Queue.Holds q) (sym (append-nil ys)) hq,
    refl,
    refl,
  )
  wakeup_one_loop-WokenOne zero pre (t ∷ rest) len hs hq room = absurd (omega arith)
  wakeup_one_loop-WokenOne (suc n) pre [] len hs hq room = absurd (omega arith)
  wakeup_one_loop-WokenOne (suc n) pre (t ∷ rest) len hs hq room =
      let lt : ltb (length pre) (Array.getnum s) ≡ true =
        ground (arith, getnum-Holds hs, length-append pre (t ∷ rest)) in
      let got : Array.getguy s (pos (length pre)) ≡ done t =
        getguy-Holds (length pre) hs ∙ ap or_halt (get_elem?_middle pre t rest) in
      elim (Bool-cases (sleeps_on sleepaddr addr t)) [
        | inl on ↦
            let (s1, q1, e1, hs1, hq1, size1, max1) = wake-Holds mem pre t rest ys hs hq room in
            (s1, q1, rw (wakeup_one_loop, lt, got, on, e1), rw on hs1, rw on hq1, size1, max1)
        | inr off ↦
            let (s2, q2, e2, hs2, hq2, size2, max2) =
              wakeup_one_loop-WokenOne n (pre ++ (t ∷ [])) rest (omega arith)
                (subst (λ l. Array.Holds s l) (sym (append_assoc pre (t ∷ []) rest)) hs) hq room in
            (
              s2,
              q2,
              (let f =
                    subst (λ j. wakeup_one_loop mem sleepaddr addr n j (s, q) ≡ done (s2, q2))
                      (length-append pre (t ∷ [])) e2 in
                  rw (wakeup_one_loop, lt, got, off) f),
              rw off (subst (Array.Holds s2) (append_assoc pre (t ∷ []) _) hs2),
              rw off hq2,
              size2,
              max2,
            )
      ]

-- `thread_wakeupOne`, with interrupts off and room for all threads: the first of the sleepers on the
-- address, if there is one, goes to the end of the list of those that can run, and the others stay.
pub thread_wakeup_one-Threads :
    (mem : Bool) (addr : ℕ) (k : Kernel) {cur : ℕ} {running sleeping : List ℕ}
    → 0 < k.curspl
    → Threads k cur running sleeping
    → Woke
        (thread_wakeup_one mem addr k)
        k
        cur
        (running ++ first_such (sleeps_on k.sleepaddr addr) sleeping)
        (but_first (sleeps_on k.sleepaddr addr) sleeping)
unfolding thread_wakeup_one
thread_wakeup_one-Threads mem addr k {cur} {running} {sleeping} off th =
    let sum = length-but_first (sleeps_on k.sleepaddr addr) sleeping in
    let one = first_such_one (sleeps_on k.sleepaddr addr) sleeping in
    let len = length-append running (first_such (sleeps_on k.sleepaddr addr) sleeping) in
    let (s', q', e, hs', hq', size, max) =
      wakeup_one_loop-WokenOne mem k.sleepaddr addr k.sleepers k.runqueue running
        (Array.getnum k.sleepers) [] sleeping (sym (getnum-Holds th.asleep)) th.asleep th.ready
        (omega (arith, th.room)) in
    (
      record k { sleepers = s'; runqueue = q' },
      rw (lt→ltb 0 k.curspl off, e),
      record {
        current = th.current;
        ready = hq';
        asleep = hs';
        room = omega (arith, th.room);
        space = omega (arith, th.space);
      },
      refl,
      refl,
      refl,
    )
