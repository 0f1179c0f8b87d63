-- ===== src/Coremap/Search.antt =====
-- kern/vm/vm.c: what the searches of the page allocator find.
use mathlib.Core.Path.{subst}
use native.Mathlib.Decide.{ℕ_discrete}
use operating_system.Prelude.{
  ℕ, zero, suc, ◌+◌, ◌-◌, ◌≤◌, ◌<◌, ◌≡◌, ◌≢◌, refl, Option, none, some, List, arith, length,
  get_elem?, get_elem?_of_lt, done, Bool, true, false,
}
use operating_system.Coremap.Defs.{Entry, first_free, find_page, run_free, first_run}

-- No entry from `i` up to `k` has state 0.
abbrev pub NoneFree : List Entry → ℕ → ℕ → Type 0
NoneFree es i k = (j : ℕ) (e : Entry) → i ≤ j → j < k → get_elem? es j ≡ some e → e.state ≢ 0

-- What a search from `i` below `k` gives: the first free entry, or nothing where none is free.
abbrev pub FirstFree : List Entry → ℕ → ℕ → Option ℕ → Type 0
FirstFree es i k none = NoneFree es i k
FirstFree es i k (some f) =
    (e : Entry) × (get_elem? es f ≡ some e) × (e.state ≡ 0) × (i ≤ f) × (f < k) × NoneFree es i f

pub first_free-FirstFree :
    (n i : ℕ) (es : List Entry)
    → i + n ≤ length es
    → (o : Option ℕ) × (first_free n i es ≡ done o) × FirstFree es i (i + n) o
unfolding first_free
first_free-FirstFree zero i es h = (none, refl, λ j e p q g. absurd (omega arith))
first_free-FirstFree (suc n) i es h =
    look (get_elem?_of_lt es i (omega arith)) (first_free-FirstFree n (i + 1) es (omega arith))
  where
    past :
        (o : Option ℕ) (e : Entry)
        → get_elem? es i ≡ some e
        → e.state ≢ 0
        → FirstFree es (i + 1) (i + 1 + n) o
        → FirstFree es i (i + suc n) o
    past none e at used f = λ j e' p q g. elim (ℕ_discrete i j) [
      | yes same ↦ ground arith
      | no ne ↦ f j e' (omega arith) (omega arith) g
    ]
    past (some k) e at used (e1, g1, z, lo, hi, before) = (
      e1,
      g1,
      z,
      omega arith,
      omega arith,
      λ j e' p q g. elim (ℕ_discrete i j) [
        | yes same ↦ ground arith
        | no ne ↦ before j e' (omega arith) q g
      ],
    )

    look :
        (e : Entry) × (get_elem? es i ≡ some e)
        → (o : Option ℕ) × (first_free n (i + 1) es ≡ done o) × FirstFree es (i + 1) (i + 1 + n) o
        → (o : Option ℕ) × (first_free (suc n) i es ≡ done o) × FirstFree es i (i + suc n) o
    look (e, at) (o, eq, f) = elim (ℕ_discrete e.state 0) [
      | yes free ↦ (
        some i,
        ground arith,
        (e, at, free, omega arith, omega arith, λ j e' p q g. absurd (omega arith)),
      )
      | no used ↦ (o, ground arith, past o e at used f)
    ]

-- No page is in two entries below `k`.
abbrev pub Distinct : List Entry → ℕ → Type 0
Distinct es k =
    (i j : ℕ) (e f : Entry)
    → i < k
    → j < k
    → get_elem? es i ≡ some e
    → get_elem? es j ≡ some f
    → e.pa ≡ f.pa
    → i ≡ j

-- The search by page finds the one entry that has it.
pub find_page_hit :
    (n s : ℕ) (es : List Entry) (i : ℕ) (e : Entry)
    → Distinct es (s + n)
    → get_elem? es i ≡ some e
    → s ≤ i
    → i < s + n
    → s + n ≤ length es
    → find_page e.pa n s es ≡ done (some (i, e))
unfolding find_page
find_page_hit zero s es i e d at lo hi room = absurd (omega arith)
find_page_hit (suc n) s es i e d at lo hi room =
    look (ℕ_discrete s i) (get_elem?_of_lt es s (omega arith)) (λ (lt : s + 1 ≤ i).
      find_page_hit n (s + 1) es i e (λ a b x y p q. d a b x y (omega arith) (omega arith)) at lt
        (omega arith) (omega arith))
  where
    look :
        Dec (s ≡ i)
        → (f : Entry) × (get_elem? es s ≡ some f)
        → (s + 1 ≤ i → find_page e.pa n (s + 1) es ≡ done (some (i, e)))
        → find_page e.pa (suc n) s es ≡ done (some (i, e))
    look (yes same) (f, g) ih = ground arith
    look (no ne) (f, g) ih =
        ground (arith, d s i f e (omega arith) (omega arith) g at, ih (omega arith))

-- Whether a stretch has an entry in use.
abbrev pub Stretch : List Entry → ℕ → ℕ → Bool → Type 0
Stretch es i k true = (j : ℕ) (e : Entry) → i ≤ j → j < k → get_elem? es j ≡ some e → e.state ≢ 1
Stretch es i k false =
    (j : ℕ) × (e : Entry) × (i ≤ j) × (j < k) × (get_elem? es j ≡ some e) × (e.state ≡ 1)

pub run_free-Stretch :
    (n i : ℕ) (es : List Entry)
    → i + n ≤ length es
    → (b : Bool) × (run_free n i es ≡ done b) × Stretch es i (i + n) b
unfolding run_free
run_free-Stretch zero i es h = (true, refl, λ j e p q g. absurd (omega arith))
run_free-Stretch (suc n) i es h =
    look (get_elem?_of_lt es i (omega arith)) (run_free-Stretch n (i + 1) es (omega arith))
  where
    past :
        (b : Bool) (e : Entry)
        → get_elem? es i ≡ some e
        → e.state ≢ 1
        → Stretch es (i + 1) (i + 1 + n) b
        → Stretch es i (i + suc n) b
    past true e at idle f = λ j e' p q g. elim (ℕ_discrete i j) [
      | yes same ↦ ground arith
      | no ne ↦ f j e' (omega arith) (omega arith) g
    ]
    past false e at idle (j, e', p, q, g, z) = (j, e', omega arith, omega arith, g, z)

    look :
        (e : Entry) × (get_elem? es i ≡ some e)
        → (b : Bool) × (run_free n (i + 1) es ≡ done b) × Stretch es (i + 1) (i + 1 + n) b
        → (b : Bool) × (run_free (suc n) i es ≡ done b) × Stretch es i (i + suc n) b
    look (e, at) (b, eq, f) = elim (ℕ_discrete e.state 1) [
      | yes used ↦ (false, ground arith, (i, e, omega arith, omega arith, at, used))
      | no idle ↦ (b, ground arith, past b e at idle f)
    ]

-- Every free entry from `i` below `k` has an entry in use behind it, nearer than `npages`.
abbrev pub Blocked : ℕ → List Entry → ℕ → ℕ → Type 0
Blocked npages es i k =
    (s : ℕ) (e : Entry)
    → i ≤ s
    → s < k
    → get_elem? es s ≡ some e
    → e.state ≡ 0
    → Stretch es (s + 1) (s + 1 + (npages - 1)) false

-- What the search for `npages` in a row gives, over the entries from `i` below `k`: the first entry
-- that is free with no entry in use behind it, nearer than `npages`, or nothing, where every free entry is too near to one
-- in use.
abbrev pub FirstRun : ℕ → List Entry → ℕ → ℕ → Option ℕ → Type 0
FirstRun npages es i k none = Blocked npages es i k
FirstRun npages es i k (some s) =
    (e : Entry) × (get_elem? es s ≡ some e)
    × (e.state ≡ 0)
    × (i ≤ s)
    × (s < k)
    × Stretch es (s + 1) (s + 1 + (npages - 1)) true
    × Blocked npages es i s

pub first_run-FirstRun :
    (npages n i : ℕ) (es : List Entry)
    → i + n + (npages - 1) ≤ length es
    → (o : Option ℕ) × (first_run npages n i es ≡ done o) × FirstRun npages es i (i + n) o
unfolding first_run
first_run-FirstRun npages zero i es h = (none, refl, λ s e p q g z. absurd (omega arith))
first_run-FirstRun npages (suc n) i es h =
    look (get_elem?_of_lt es i (omega arith))
      (run_free-Stretch (npages - 1) (i + 1) es (omega arith))
      (first_run-FirstRun npages n (i + 1) es (omega arith))
  where
    past :
        (o : Option ℕ) (e : Entry)
        → get_elem? es i ≡ some e
        → (e.state ≡ 0 → Stretch es (i + 1) (i + 1 + (npages - 1)) false)
        → FirstRun npages es (i + 1) (i + 1 + n) o
        → FirstRun npages es i (i + suc n) o
    past none e at blocked f = λ s e' p q g z. elim (ℕ_discrete i s) [
      | yes same ↦
          subst (λ s. Stretch es (s + 1) (s + 1 + (npages - 1)) false) same (blocked (ground arith))
      | no ne ↦ f s e' (omega arith) (omega arith) g z
    ]
    past (some s) e at blocked (e', g, z, p, q, clear, before) = (
      e',
      g,
      z,
      omega arith,
      omega arith,
      clear,
      λ t f p' q' g' z'. elim (ℕ_discrete i t) [
        | yes same ↦
            subst (λ t. Stretch es (t + 1) (t + 1 + (npages - 1)) false) same
              (blocked (ground (arith, at, g', same, z')))
        | no ne ↦ before t f (omega arith) q' g' z'
      ],
    )

    look :
        (e : Entry) × (get_elem? es i ≡ some e)
        → (b : Bool) × (run_free (npages - 1) (i + 1) es ≡ done b)
          × Stretch es (i + 1) (i + 1 + (npages - 1)) b
        → (o : Option ℕ) × (first_run npages n (i + 1) es ≡ done o)
          × FirstRun npages es (i + 1) (i + 1 + n) o
        → (o : Option ℕ) × (first_run npages (suc n) i es ≡ done o)
          × FirstRun npages es i (i + suc n) o
    look (e, at) (true, eq, clear) (o, eq', f) = elim (ℕ_discrete e.state 0) [
      | yes free ↦ (
        some i,
        ground arith,
        (e, at, free, omega arith, omega arith, clear, λ t f p q g z. absurd (omega arith)),
      )
      | no used ↦ (o, ground arith, past o e at (λ z. absurd (used z)) f)
    ]
    look (e, at) (false, eq, blocked) (o, eq', f) = (o, ground arith, past o e at (λ z. blocked) f)
