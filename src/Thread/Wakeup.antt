-- ===== src/Thread/Wakeup.antt =====
-- kern/thread/thread.c: who is woken, and in which order.
use mathlib.Core.Path.{subst}
use mathlib.Core.List.{append_assoc, append-nil}
use operating_system.Prelude.{
  ℕ, zero, suc, ◌+◌, ◌≤◌, ◌<◌, ◌≡◌, refl, sym, ap, ◌∙◌, Bool, true, false, not, Option, List, [],
  ◌∷◌, ◌++◌, arith, length, length-append, get_elem?_middle, erase_idx_middle, pos, ltb, lt→ltb,
  Bool-cases, inl, inr, if◌then◌else◌, done,
}
use operating_system.Array
use operating_system.Array.{Array}
use operating_system.Array.Refine.{getguy-Holds, getnum-Holds, or_halt}
use operating_system.Array.Remove.{remove-Holds}
use operating_system.Queue
use operating_system.Queue.{Queue}
use operating_system.Queue.Growth.{addtail-Holds_room}
use operating_system.Thread.Defs.{
  Kernel, sleeps_on, wake, wakeup_loop, thread_wakeup, make_runnable, must,
}

-- The members of a list that a test picks, in their order.
abbrev pub select : (ℕ → Bool) → List ℕ → List ℕ
select p [] = []
select p (x ∷ xs) = if p x then x ∷ select p xs else select p xs

select_yes : (p : ℕ → Bool) (x : ℕ) (xs : List ℕ) → p x ≡ true → select p (x ∷ xs) ≡ x ∷ select p xs
select_yes p x xs e = rw e

select_no : (p : ℕ → Bool) (x : ℕ) (xs : List ℕ) → p x ≡ false → select p (x ∷ xs) ≡ select p xs
select_no p x xs e = rw e

length-select : (p : ℕ → Bool) (xs : List ℕ) → length (select p xs) ≤ length xs
length-select p [] = omega arith
length-select p (x ∷ xs) = ground (arith, length-select p xs)

-- One sleeper moves from its place to the end of the run queue.
pub wake-Holds :
    (mem : Bool) (pre : List ℕ) (t : ℕ) (rest ys : List ℕ) {s : Array ℕ} {q : Queue ℕ}
    → Array.Holds s (pre ++ (t ∷ rest))
    → Queue.Holds q ys
    → length ys + 1 < q.size
    → (s' : Array ℕ) × (q' : Queue ℕ) × (wake mem (length pre) t (s, q) ≡ done (s', q'))
      × Array.Holds s' (pre ++ rest)
      × Queue.Holds q' (ys ++ (t ∷ []))
      × (q'.size ≡ q.size)
      × (s'.max ≡ s.max)
unfolding wake make_runnable must
wake-Holds mem pre t rest ys hs hq room =
    let (s', e, hs', max) =
      remove-Holds (length pre) hs (omega (arith, length-append pre (t ∷ rest))) in
    let (q', f, hq', size) = addtail-Holds_room mem t hq room in
    (s', q', rw (e, f), subst (Array.Holds s') (erase_idx_middle pre t rest) hs', hq', size, max)

-- What the loop leaves, from behind `pre` on.
abbrev Woken : Bool → (ℕ → Option ℕ) → ℕ → ℕ → List ℕ → List ℕ → List ℕ → Array ℕ → Queue ℕ → Type 0
Woken mem sleepaddr addr n pre rest ys s q =
    (s' : Array ℕ) × (q' : Queue ℕ) × (wakeup_loop mem sleepaddr addr n (length pre) (s, q)
      ≡ done (s', q'))
    × Array.Holds s' (pre ++ select (λ t. not (sleeps_on sleepaddr addr t)) rest)
    × Queue.Holds q' (ys ++ select (sleeps_on sleepaddr addr) rest)
    × (q'.size ≡ q.size)
    × (s'.max ≡ s.max)

-- A round that wakes, and a round that does not.
module _ (mem : Bool) (sleepaddr : ℕ → Option ℕ) (addr n i t : ℕ) (s : Array ℕ) (q : Queue ℕ)
    (in_range : ltb i (Array.getnum s) ≡ true) (got : Array.getguy s (pos i) ≡ done t) where
  wakeup_loop_yes :
      {r : Array ℕ × Queue ℕ}
      → sleeps_on sleepaddr addr t ≡ true
      → wake mem i t (s, q) ≡ done r
      → wakeup_loop mem sleepaddr addr (suc n) i (s, q) ≡ wakeup_loop mem sleepaddr addr n i r
  unfolding wakeup_loop
  wakeup_loop_yes on e = rw (in_range, got, on, e)

  wakeup_loop_no :
      sleeps_on sleepaddr addr t ≡ false
      → wakeup_loop mem sleepaddr addr (suc n) i (s, q)
        ≡ wakeup_loop mem sleepaddr addr n (i + 1) (s, q)
  unfolding wakeup_loop
  wakeup_loop_no off = rw (in_range, got, off)

wakeup_loop-Woken :
    (mem : Bool) (sleepaddr : ℕ → Option ℕ) (addr n : ℕ) (pre rest ys : List ℕ) {s : Array ℕ}
    {q : Queue ℕ}
    → length rest ≡ n
    → Array.Holds s (pre ++ rest)
    → Queue.Holds q ys
    → length ys + length (select (sleeps_on sleepaddr addr) rest) < q.size
    → Woken mem sleepaddr addr n pre rest ys s q
unfolding wakeup_loop
wakeup_loop-Woken mem sleepaddr addr zero pre [] ys {s} {q} len hs hq room = (
  s,
  q,
  (let e : ltb (length pre) (Array.getnum s) ≡ false =
        ground (arith, getnum-Holds hs, length-append {A = ℕ} pre []) in
      rw e),
  hs,
  subst (Queue.Holds q) (sym (append-nil ys)) hq,
  refl,
  refl,
)
wakeup_loop-Woken mem sleepaddr addr zero pre (t ∷ rest) ys len hs hq room = absurd (omega arith)
wakeup_loop-Woken mem sleepaddr addr (suc n) pre [] ys len hs hq room = absurd (omega arith)
wakeup_loop-Woken mem sleepaddr addr (suc n) pre (t ∷ rest) ys {s} {q} len hs hq room =
    let lt : ltb (length pre) (Array.getnum s) ≡ true =
      ground (arith, getnum-Holds hs, length-append pre (t ∷ rest)) in
    let got : Array.getguy s (pos (length pre)) ≡ done t =
      getguy-Holds (length pre) hs ∙ ap or_halt (get_elem?_middle pre t rest) in
    elim (Bool-cases (sleeps_on sleepaddr addr t)) [
      | inl on ↦
          let chosen = select_yes (sleeps_on sleepaddr addr) t rest on in
          let left = select_no (λ u. not (sleeps_on sleepaddr addr u)) t rest (ap not on) in
          let lens = ap length chosen in
          let (s1, q1, e1, hs1, hq1, size1, max1) =
            wake-Holds mem pre t rest ys hs hq (omega arith) in
          let (s2, q2, e2, hs2, hq2, size2, max2) =
            wakeup_loop-Woken mem sleepaddr addr n pre rest (ys ++ (t ∷ [])) (omega arith) hs1 hq1
              (omega (arith, length-append ys (t ∷ []))) in
          (
            s2,
            q2,
            wakeup_loop_yes mem sleepaddr addr n (length pre) t s q lt got on e1 ∙ e2,
            subst (λ l. Array.Holds s2 (pre ++ l)) (sym left) hs2,
            subst (Queue.Holds q2) (append_assoc ys (t ∷ []) _ ∙ ap (λ l. ys ++ l) (sym chosen))
                hq2,
            size2 ∙ size1,
            max2 ∙ max1,
          )
      | inr off ↦
          let chosen = select_no (sleeps_on sleepaddr addr) t rest off in
          let left = select_yes (λ u. not (sleeps_on sleepaddr addr u)) t rest (ap not off) in
          let lens = ap length chosen in
          let next : length (pre ++ (t ∷ [])) ≡ length pre + 1 = length-append pre (t ∷ []) in
          let (s2, q2, e2, hs2, hq2, size2, max2) =
            wakeup_loop-Woken mem sleepaddr addr n (pre ++ (t ∷ [])) rest ys {s = s} {q = q}
              (omega arith) (subst (λ l. Array.Holds s l) (sym (append_assoc pre (t ∷ []) rest)) hs)
              hq (omega arith) in
          (
            s2,
            q2,
            wakeup_loop_no mem sleepaddr addr n (length pre) t s q lt got off
                ∙ subst (λ j. wakeup_loop mem sleepaddr addr n j (s, q) ≡ done (s2, q2)) next e2,
            subst (Array.Holds s2) (append_assoc pre (t ∷ []) _ ∙ ap (λ l. pre ++ l) (sym left))
                hs2,
            subst (λ l. Queue.Holds q2 (ys ++ l)) (sym chosen) hq2,
            size2,
            max2,
          )
    ]

-- `thread_wakeup`, with interrupts off and room in the run queue for the threads that sleep on the
-- address: whatever memory there is, it ends without a failed assertion, those threads stand behind
-- the others of the run queue in the order in which they slept, the blocks of the two have their sizes
-- still, and the other sleepers stay, in order.
pub thread_wakeup-Holds :
    (mem : Bool) (addr : ℕ) (k : Kernel) {sleeping running : List ℕ}
    → 0 < k.curspl
    → Array.Holds k.sleepers sleeping
    → Queue.Holds k.runqueue running
    → length running + length (select (sleeps_on k.sleepaddr addr) sleeping) < k.runqueue.size
    → (s' : Array ℕ) × (q' : Queue ℕ) × (thread_wakeup mem addr k
        ≡ done (record k { sleepers = s'; runqueue = q' }))
      × Array.Holds s' (select (λ t. not (sleeps_on k.sleepaddr addr t)) sleeping)
      × Queue.Holds q' (running ++ select (sleeps_on k.sleepaddr addr) sleeping)
      × (q'.size ≡ k.runqueue.size)
      × (s'.max ≡ k.sleepers.max)
unfolding thread_wakeup
thread_wakeup-Holds mem addr k {sleeping} {running} off hs hq room =
    let (s', q', e, hs', hq', size, max) =
      wakeup_loop-Woken mem k.sleepaddr addr (Array.getnum k.sleepers) [] sleeping running
        (sym (getnum-Holds hs)) hs hq room in
    (s', q', rw (lt→ltb 0 k.curspl off, e), hs', hq', size, max)
