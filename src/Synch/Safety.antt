-- ===== src/Synch/Safety.antt =====
-- kern/thread/synch.c: what the counts and the locks come to in every run.
use native.Mathlib.Decide.{ℕ_discrete}
use operating_system.Prelude.{
  ℕ, suc, ◌+◌, ◌≡◌, refl, ap, ◌∙◌, ◌⊎◌, inl, inr, true, false, Option, none, some, List, [], ◌∷◌,
  ◌++◌, arith, ◌==◌, if◌then◌else◌,
}
use operating_system.Synch.Defs.{
  Object, semaphore, lock, System, Event, lowered, raised, acquired, released, update, Run, nothing,
  then_step,
}
use operating_system.Synch.Acts.{Act, stay, lower, raise, get, give, step-Act}

-- How often P took down the count at `a`, and how often V put it up.
abbrev pub lowers : ℕ → List Event → ℕ
lowers a [] = 0
lowers a (lowered t b ∷ es) = (if b == a then 1 else 0) + lowers a es
lowers a (e ∷ es) = lowers a es

abbrev pub raises : ℕ → List Event → ℕ
raises a [] = 0
raises a (raised t b ∷ es) = (if b == a then 1 else 0) + raises a es
raises a (e ∷ es) = raises a es

-- The threads that came out of `lock_acquire` on the lock at `l` and did not give it up since.
abbrev pub without : ℕ → List ℕ → List ℕ
without t [] = []
without t (u ∷ us) = if u == t then without t us else u ∷ without t us

abbrev pub inside : ℕ → List Event → List ℕ
inside l [] = []
inside l (acquired t a ∷ es) = if a == l then t ∷ inside l es else inside l es
inside l (released t a ∷ es) = if a == l then without t (inside l es) else inside l es
inside l (e ∷ es) = inside l es

abbrev pub Counted : ℕ → ℕ → (ℕ → Object) → List Event → Type 0
Counted a first o es = (n : ℕ) × (o a ≡ semaphore n) × (n + lowers a es ≡ first + raises a es)

-- The lock is free and nobody is inside, or it is held by the one thread that is.
abbrev pub Excluded : ℕ → (ℕ → Object) → List Event → Type 0
Excluded l o es =
    ((g : Option ℕ) × (o l ≡ lock false g) × (inside l es ≡ []))
    ⊎ ((t : ℕ) × (o l ≡ lock true (some t)) × (inside l es ≡ t ∷ []))

-- What stands at `a` after a change at `b`.
update_at :
    (o o' : ℕ → Object) (a b : ℕ) (x : Object)
    → o' ≡ update o b x
    → o' a ≡ (if a == b then x else o a)
update_at o o' a b x e = ap (λ f. f a) e

module _ {t : ℕ} {o o' : ℕ → Object} {new : List Event} (a : ℕ) where
  Act-Counted :
      (first : ℕ) (es : List Event)
      → Act t o o' new
      → Counted a first o es
      → Counted a first o' (new ++ es)
  Act-Counted first es (stay same e) (n, at, sum) = (n, ap (λ f. f a) same ∙ at, rw e sum)
  Act-Counted first es (lower b m before after e) (n, at, sum) = elim (ℕ_discrete b a) [
    | yes here ↦ (
      m,
      update_at o o' a b (semaphore m) after ∙ ground (arith, here),
      rw e (ground (arith, here, before, at, sum)),
    )
    | no there ↦ (
      n,
      update_at o o' a b (semaphore m) after ∙ ground (arith, there, at),
      rw e (ground (arith, there, sum)),
    )
  ]
  Act-Counted first es (raise b m before after e) (n, at, sum) = elim (ℕ_discrete b a) [
    | yes here ↦ (
      suc m,
      update_at o o' a b (semaphore (suc m)) after ∙ ground (arith, here),
      rw e (ground (arith, here, before, at, sum)),
    )
    | no there ↦ (
      n,
      update_at o o' a b (semaphore (suc m)) after ∙ ground (arith, there, at),
      rw e (ground (arith, there, sum)),
    )
  ]
  Act-Counted first es (get b g before after e) (n, at, sum) = elim (ℕ_discrete b a) [
    | yes here ↦ ground (arith, here, before, at)
    | no there ↦
        (n, update_at o o' a b (lock true (some t)) after ∙ ground (arith, there, at), rw e sum)
  ]
  Act-Counted first es (give b h before after e) (n, at, sum) = elim (ℕ_discrete b a) [
    | yes here ↦ ground (arith, here, before, at)
    | no there ↦
        (n, update_at o o' a b (lock false none) after ∙ ground (arith, there, at), rw e sum)
  ]

  Act-Excluded : (es : List Event) → Act t o o' new → Excluded a o es → Excluded a o' (new ++ es)
  Act-Excluded es (stay same e) (inl (g, at, none_in)) =
      inl (g, ap (λ f. f a) same ∙ at, rw e none_in)
  Act-Excluded es (stay same e) (inr (u, at, one_in)) =
      inr (u, ap (λ f. f a) same ∙ at, rw e one_in)
  Act-Excluded es (lower b m before after e) (inl (g, at, none_in)) = elim (ℕ_discrete b a) [
    | yes here ↦ ground (arith, here, before, at)
    | no there ↦
        inl (g, update_at o o' a b (semaphore m) after ∙ ground (arith, there, at), rw e none_in)
  ]
  Act-Excluded es (lower b m before after e) (inr (u, at, one_in)) = elim (ℕ_discrete b a) [
    | yes here ↦ ground (arith, here, before, at)
    | no there ↦
        inr (u, update_at o o' a b (semaphore m) after ∙ ground (arith, there, at), rw e one_in)
  ]
  Act-Excluded es (raise b m before after e) (inl (g, at, none_in)) = elim (ℕ_discrete b a) [
    | yes here ↦ ground (arith, here, before, at)
    | no there ↦
        inl (
          g,
          update_at o o' a b (semaphore (suc m)) after ∙ ground (arith, there, at),
          rw e none_in,
        )
  ]
  Act-Excluded es (raise b m before after e) (inr (u, at, one_in)) = elim (ℕ_discrete b a) [
    | yes here ↦ ground (arith, here, before, at)
    | no there ↦
        inr
          (u, update_at o o' a b (semaphore (suc m)) after ∙ ground (arith, there, at), rw e one_in)
  ]
  Act-Excluded es (get b g before after e) (inl (h, at, none_in)) = elim (ℕ_discrete b a) [
    | yes here ↦ inr (
      t,
      update_at o o' a b (lock true (some t)) after ∙ ground (arith, here),
      rw e (ground (arith, here, none_in)),
    )
    | no there ↦ inl (
      h,
      update_at o o' a b (lock true (some t)) after ∙ ground (arith, there, at),
      rw e (ground (arith, there, none_in)),
    )
  ]
  Act-Excluded es (get b g before after e) (inr (u, at, one_in)) = elim (ℕ_discrete b a) [
    | yes here ↦ ground (arith, here, before, at)
    | no there ↦ inr (
      u,
      update_at o o' a b (lock true (some t)) after ∙ ground (arith, there, at),
      rw e (ground (arith, there, one_in)),
    )
  ]
  Act-Excluded es (give b h before after e) (inl (g, at, none_in)) = elim (ℕ_discrete b a) [
    | yes here ↦ inl (
      none,
      update_at o o' a b (lock false none) after ∙ ground (arith, here),
      rw e (ground (arith, here, none_in)),
    )
    | no there ↦ inl (
      g,
      update_at o o' a b (lock false none) after ∙ ground (arith, there, at),
      rw e (ground (arith, there, none_in)),
    )
  ]
  Act-Excluded es (give b h before after e) (inr (u, at, one_in)) = elim (ℕ_discrete b a) [
    | yes here ↦ inl (
      none,
      update_at o o' a b (lock false none) after ∙ ground (arith, here),
      rw e (ground (arith, here, before, at, one_in)),
    )
    | no there ↦ inr (
      u,
      update_at o o' a b (lock false none) after ∙ ground (arith, there, at),
      rw e (ground (arith, there, one_in)),
    )
  ]

-- In every run from a state in which a semaphore stands at `a`, it stands there still, and its count and
-- the number of times that P came out with it are together the first count and the number of calls of V.
pub Run-Counted :
    {first s : System} {es : List Event} (a n : ℕ)
    → first.objects a ≡ semaphore n
    → Run first es s
    → Counted a n s.objects es
Run-Counted a n at nothing = (n, at, refl)
Run-Counted a n at (then_step {es} r mem c h all) =
    let (t, _, act) = step-Act mem c _ h in rw all (Act-Counted a n es act (Run-Counted a n at r))

-- In every run from a state in which a lock is free, whatever its `heldThread` is, at most one thread is
-- inside at any time: the lock is free and none is, or it is held, by the one that is.
pub Run-Excluded :
    {first s : System} {es : List Event} (l : ℕ) (garbage : Option ℕ)
    → first.objects l ≡ lock false garbage
    → Run first es s
    → Excluded l s.objects es
Run-Excluded l garbage at nothing = inl (garbage, at, refl)
Run-Excluded l garbage at (then_step {es} r mem c h all) =
    let (t, _, act) = step-Act mem c _ h in
    rw all (Act-Excluded l es act (Run-Excluded l garbage at r))
