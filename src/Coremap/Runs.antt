-- ===== src/Coremap/Runs.antt =====
-- kern/vm/vm.c: several pages in a row, taken by `alloc_kpages`.
use native.Mathlib.Nat.{add_assoc, add-zero}
use operating_system.Prelude.{
  ℕ, zero, suc, ◌+◌, ◌-◌, ◌≤◌, ◌<◌, ◌≡◌, ◌⊎◌, inl, inr, refl, ap, sym, ◌∙◌, Option, none, some,
  List, arith, length, get_elem?, done, paddr_to_kvaddr, modify, length-modify, modify_at, true,
  false, ltb, leb, ◌==◌, ◌&&◌, lt→ltb, if◌then◌else◌,
}
use operating_system.Coremap.Defs.{Entry, Vm, pa_at, first_run, claim_run, take_run, alloc_kpages}
use operating_system.Coremap.Search.{Stretch, Blocked, FirstRun, first_run-FirstRun}
use operating_system.Coremap.Pages.{IsValid, pa_at-some}

-- What is left of an entry once the run from `lo` below `hi` is claimed.
abbrev pub Claims : ℕ → ℕ → ℕ → Entry → Entry → Type 0
Claims lo hi j e f =
    (f.pa ≡ e.pa)
    × (f.follower ≡ e.follower)
    × (f.state ≡ (if leb lo j && ltb j hi then 1 else e.state))

one_claim :
    (es : List Entry) (a i j : ℕ) (cur : Option ℕ) {e : Entry}
    → get_elem? es j ≡ some e
    → (f : Entry) × (get_elem?
          (modify
            (modify es a (λ e. record e { state = 1; york = b'k' }))
            i
            (λ e. record e { thread_as = cur }))
          j
        ≡ some f)
      × Claims a (a + 1) j e f
one_claim es a i j cur {e} at = (
  (if i == j then record marked { thread_as = cur } else marked),
  modify_at (modify es a mark) i j _ (modify_at es a j mark at),
  (ground arith, ground arith, ground arith),
)
  where
    mark : Entry → Entry
    mark e = record e { state = 1; york = b'k' }

    marked : Entry
    marked = if a == j then mark e else e

-- One claim, then those behind it.
extend :
    (a n j x y z : ℕ)
    → y ≡ (if leb a j && ltb j (a + 1) then 1 else x)
    → z ≡ (if leb (a + 1) j && ltb j (a + 1 + n) then 1 else y)
    → z ≡ (if leb a j && ltb j (a + suc n) then 1 else x)
extend a n j x y z p q = ground arith

claim_run-Claims :
    (n k i : ℕ) (cur : Option ℕ) (m : Vm) (j : ℕ) {e : Entry}
    → get_elem? m.coremap j ≡ some e
    → (f : Entry) × (get_elem? (claim_run n k i cur m).coremap j ≡ some f)
      × Claims (i + k) (i + k + n) j e f
unfolding claim_run
claim_run-Claims zero k i cur m j {e} at = (e, at, (refl, refl, ground arith))
claim_run-Claims (suc n) k i cur m j {e} at =
    let (f, at', (p, q, s)) = one_claim m.coremap (i + k) i j cur at in
    let (g, at'', (p', q', s')) = claim_run-Claims n (k + 1) i cur _ j at' in
    (
      g,
      at'',
      (
        p' ∙ p,
        q' ∙ q,
        extend (i + k) n j _ _ _ s (
            s' ∙ ap (λ a. if leb a j && ltb j (a + n) then 1 else f.state) (sym (add_assoc i k 1))),
      ),
    )

length-claim_run :
    (n k i : ℕ) (cur : Option ℕ) (m : Vm)
    → (length (claim_run n k i cur m).coremap ≡ length m.coremap)
      × ((claim_run n k i cur m).coremapsize ≡ m.coremapsize)
unfolding claim_run
length-claim_run zero k i cur m = (refl, refl)
length-claim_run (suc n) k i cur m =
    let (p, q) = length-claim_run n (k + 1) i cur _ in
    (p ∙ length-modify (modify m.coremap (i + k) _) i _ ∙ length-modify m.coremap (i + k) _, q)

-- What `alloc_kpages(npages)` for several pages gives, from the entry `s` on, the first for which it
-- can: none of the entries was in use, all are now, and every other entry keeps its state; each keeps its page.
pub record TakenRun (npages : ℕ) (m : Vm) (addr : ℕ) (m' : Vm) (s : ℕ) (e : Entry) : Type 0 where
  pub found : get_elem? m.coremap s ≡ some e
  pub inside : s < m.coremapsize
  pub free : e.state ≡ 0
  pub idle : Stretch m.coremap (s + 1) (s + 1 + (npages - 1)) true
  pub first : Blocked npages m.coremap 0 s
  pub address : addr ≡ paddr_to_kvaddr e.pa
  pub claimed :
      (j : ℕ) (f : Entry)
      → get_elem? m.coremap j ≡ some f
      → (g : Entry) × (get_elem? m'.coremap j ≡ some g)
        × (g.pa ≡ f.pa)
        × (g.state ≡ (if leb s j && ltb j (s + npages) then 1 else f.state))
        × (g.follower ≡ (if s == j then npages - 1 else f.follower))

take_run-TakenRun :
    {m : Vm} (npages : ℕ) (cur : Option ℕ) (s : ℕ) (e : Entry)
    → get_elem? m.coremap s ≡ some e
    → s < m.coremapsize
    → e.state ≡ 0
    → Stretch m.coremap (s + 1) (s + 1 + (npages - 1)) true
    → Blocked npages m.coremap 0 s
    → TakenRun npages m (paddr_to_kvaddr (pa_at m.coremap s)) (take_run npages s cur m) s e
unfolding take_run
take_run-TakenRun {m} npages cur s e at lt free idle first = record {
  found = at;
  inside = lt;
  free = free;
  idle = idle;
  first = first;
  address = ap paddr_to_kvaddr (pa_at-some m.coremap s e at);
  claimed = λ j f g.
      let (h, at', (p, q, z)) = claim_run-Claims npages 0 s cur m j g in
      let w : h.state ≡ (if leb s j && ltb j (s + npages) then 1 else f.state) =
        z ∙ ap (λ a. if leb a j && ltb j (a + npages) then 1 else f.state) (add-zero s) in
      (
        (if s == j then record h { follower = npages - 1 } else h),
        modify_at (claim_run npages 0 s cur m).coremap s j _ at',
        ground arith,
        ground arith,
        ground arith,
      );
}

-- Several pages in a row for the kernel, in a block with room for the test that looks past the last
-- entry: the first run that begins at a free entry and meets none in use; or 0 and no change, where
-- an entry in use stands behind every free one, too near. The searches always end.
pub alloc_kpages-TakenRun :
    {m : Vm} (npages : ℕ) (cur : Option ℕ)
    → IsValid m
    → 1 < npages
    → m.coremapsize + (npages - 1) ≤ length m.coremap
    → (addr : ℕ) × (m' : Vm) × (alloc_kpages npages cur m ≡ done (addr, m'))
      × (((addr ≡ 0) × (m' ≡ m) × FirstRun npages m.coremap 0 m.coremapsize none)
          ⊎ ((s : ℕ) × (e : Entry) × TakenRun npages m addr m' s e))
unfolding alloc_kpages
alloc_kpages-TakenRun {m} npages cur v many room =
    look (first_run-FirstRun npages m.coremapsize 0 m.coremap (omega arith))
  where
    one : (npages == 1) ≡ false
    one = ground arith

    look :
        (o : Option ℕ) × (first_run npages m.coremapsize 0 m.coremap ≡ done o)
          × FirstRun npages m.coremap 0 (0 + m.coremapsize) o
        → (addr : ℕ) × (m' : Vm) × (alloc_kpages npages cur m ≡ done (addr, m'))
          × (((addr ≡ 0) × (m' ≡ m) × FirstRun npages m.coremap 0 m.coremapsize none)
              ⊎ ((s : ℕ) × (e : Entry) × TakenRun npages m addr m' s e))
    look (none, eq, f) = (
      0,
      m,
      simp (v.up, one, lt→ltb 1 npages many, eq),
      inl (refl, refl, λ s e p q. f s e p (omega arith)),
    )
    look (some s, eq, (e, at, free, _, lt, clear, before)) = (
      paddr_to_kvaddr (pa_at m.coremap s),
      take_run npages s cur m,
      simp (v.up, one, lt→ltb 1 npages many, eq),
      inr (s, e, take_run-TakenRun npages cur s e at (omega arith) free clear before),
    )
