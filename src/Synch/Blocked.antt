-- ===== src/Synch/Blocked.antt =====
-- kern/thread/synch.c: what the objects have to be for threads to sleep on them.
use mathlib.Core.Path.{subst}
use native.Mathlib.Decide.{ℕ_discrete}
use operating_system.Prelude.{
  ℕ, suc, ◌≡◌, sym, ap, ◌∙◌, inl, inr, Bool, true, not, Option, none, some, List, [], ◌∷◌, ◌++◌,
  arith, Bool-cases,
}
use operating_system.Thread.Defs.{sleeps_on}
use operating_system.Thread.Wakeup.{select}
use operating_system.Thread.WakeupOne.{but_first}
use operating_system.Synch.Defs.{Object, semaphore, lock, cv, update}

abbrev pub All : (ℕ → Type 0) → List ℕ → Type 0
All P [] = Unit {0}
All P (x ∷ xs) = P x × All P xs

pub All-map : (P Q : ℕ → Type 0) (xs : List ℕ) → ((x : ℕ) → P x → Q x) → All P xs → All Q xs
All-map P Q [] f h = tt
All-map P Q (x ∷ xs) f h = (f x h.0, All-map P Q xs f h.1)

pub All-snoc : (P : ℕ → Type 0) (xs : List ℕ) (x : ℕ) → All P xs → P x → All P (xs ++ (x ∷ []))
All-snoc P [] x h hx = (hx, tt)
All-snoc P (y ∷ xs) x h hx = (h.0, All-snoc P xs x h.1 hx)

pub All-select :
    (P : ℕ → Type 0) (test : ℕ → Bool) (xs : List ℕ)
    → All P xs
    → All (λ x. P x × (test x ≡ true)) (select test xs)
All-select P test [] h = tt
All-select P test (x ∷ xs) h = elim (Bool-cases (test x)) [
  | inl e ↦ rw e ((h.0, e), All-select P test xs h.1)
  | inr e ↦ rw e (All-select P test xs h.1)
]

pub All-but_first :
    (P : ℕ → Type 0) (test : ℕ → Bool) (xs : List ℕ) → All P xs → All P (but_first test xs)
All-but_first P test [] h = tt
All-but_first P test (x ∷ xs) h = elim (Bool-cases (test x)) [
  | inl e ↦ rw e h.1
  | inr e ↦ rw e (h.0, All-but_first P test xs h.1)
]

-- What has to hold of an object for a thread to sleep on it.
abbrev pub Shut : Object → Type 0
Shut (semaphore n) = n ≡ 0
Shut (lock h g) = h ≡ true
Shut cv = Unit {0}

abbrev pub Blocked : (ℕ → Object) → (ℕ → Option ℕ) → ℕ → Type 0
Blocked o sleepaddr t = (a : ℕ) → sleepaddr t ≡ some a → Shut (o a)

module _ (o : ℕ → Object) (f : ℕ → Option ℕ) (a : ℕ) where
  -- A thread that goes to sleep on `a`, which is shut.
  pub Blocked-sleep : (t u : ℕ) → Shut (o a) → Blocked o f u → Blocked o (update f t (some a)) u
  Blocked-sleep t u shut h b e = elim (ℕ_discrete u t) [
    | yes here ↦ (let same : a ≡ b = ground (arith, here, e) in subst (λ x. Shut (o x)) same shut)
    | no there ↦ h b (ground (arith, there, e))
  ]

  pub Blocked-sleeper : (t : ℕ) → Shut (o a) → Blocked o (update f t (some a)) t
  Blocked-sleeper t shut b e =
      let same : a ≡ b = ground (arith, e) in subst (λ x. Shut (o x)) same shut

  pub Blocked-close : (x : Object) (u : ℕ) → Shut x → Blocked o f u → Blocked (update o a x) f u
  Blocked-close x u shut h b e = elim (ℕ_discrete b a) [
    | yes here ↦
        (let same : update o a x b ≡ x = ground (arith, here) in subst Shut (sym same) shut)
    | no there ↦
        (let same : update o a x b ≡ o b = ground (arith, there) in subst Shut (sym same) (h b e))
  ]

  -- Nobody sleeps on the semaphore at `a` when its count is above 0.
  pub Blocked-lower :
      (m u : ℕ) → o a ≡ semaphore (suc m) → Blocked o f u → Blocked (update o a (semaphore m)) f u
  Blocked-lower m u at h b e = elim (ℕ_discrete b a) [
    | yes here ↦
        (let bad : Shut (semaphore (suc m)) = subst Shut (ap o here ∙ at) (h b e) in
          absurd (omega arith))
    | no there ↦
        (let same : update o a (semaphore m) b ≡ o b = ground (arith, there) in
          subst Shut (sym same) (h b e))
  ]

  -- An object may open when nobody sleeps on it.
  pub Blocked-open :
      (x : Object) (u : ℕ)
      → Blocked o f u × (not (sleeps_on f a u) ≡ true)
      → Blocked (update o a x) f u
  Blocked-open x u (h, off) b e = elim (ℕ_discrete b a) [
    | yes here ↦ ground (arith, here, e, off)
    | no there ↦
        (let same : update o a x b ≡ o b = ground (arith, there) in subst Shut (sym same) (h b e))
  ]

pub Blocked-woken :
    (o : ℕ → Object) (f : ℕ → Option ℕ) (t u : ℕ) → Blocked o f u → Blocked o (update f t none) u
Blocked-woken o f t u h b e = elim (ℕ_discrete u t) [
  | yes here ↦ ground (arith, here, e)
  | no there ↦ h b (ground (arith, there, e))
]
