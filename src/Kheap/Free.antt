-- ===== src/Kheap/Free.antt =====
-- kern/lib/kheap.c: what kfree makes of the heap.
use mathlib.Core.Path.{subst}
use native.Mathlib.Decide.{ℕ_discrete}
use operating_system.Prelude.{
  ℕ, ◌+◌, ◌/◌, ◌%◌, ◌^◌, ◌<◌, ◌≡◌, ◌≢◌, refl, sym, ap, ◌∙◌, true, false, ◌&&◌, List, [], ◌∷◌, arith,
  ltb, leb, lt→ltb, ◌==◌, ==_iff, Bool-cases, inl, inr, length, page_size, word, done, none, some,
}
use operating_system.Kheap.Source.{PageSource, IsPageSource, InPage}
use operating_system.Kheap.Defs.{
  Pageref, Heap, size_of, nsizes, page_of, type_of, put, find_page, put_block, subpage_kfree, kfree,
}
use operating_system.Kheap.Freelist.{member, length_lt_of_missing, blocks_in, block}
use operating_system.Kheap.Blocks.{block_bound, page-IsSize_in}
use operating_system.Kheap.Invariant.{IsHeap, Live, put_self}
use operating_system.Kheap.Freed.{freed_count, freed_heap, put_block_step}
use operating_system.Kheap.Release.{Took, freed_heap-Took}
use operating_system.Kheap.Retire.{retire-Retired, Took-Retired}

-- What `find_page` relies on for each page
abbrev pub Findable : (ℕ → Pageref) → ℕ → Type 0
Findable refs j = (type_of (refs j) < nsizes) × (page_of (refs j) + page_size < 2 ^ 32)

-- A page that holds the address is found, where no other one does.
find_page_hit :
    (p : PageSource) (ptr j : ℕ) (js : List ℕ) (refs : ℕ → Pageref)
    → ((k : ℕ) → member k js ≡ true → Findable refs k)
    → ((k : ℕ) → member k js ≡ true → InPage (page_of (refs k)) ptr → k ≡ j)
    → member j js ≡ true
    → InPage (page_of (refs j)) ptr
    → find_page p ptr js refs ≡ done (some j)
unfolding find_page
find_page_hit p ptr j [] refs ok only on inside = absurd (ground (arith, on))
find_page_hit p ptr j (k ∷ ks) refs ok only on inside =
    let f = ok k (ground arith) in
    let kind = lt→ltb (type_of (refs k)) nsizes f.0 in
    let top : word (page_of (refs k) + page_size) ≡ page_of (refs k) + page_size =
      omega (arith, f.1) in
    elim (ℕ_discrete k j) [
      | yes here ↦
          let it : InPage (page_of (refs k)) ptr =
            subst (λ t. InPage (page_of (refs t)) ptr) (sym here) inside in
          let low : leb (page_of (refs k)) ptr ≡ true = ground (arith, it) in
          let high : ltb ptr (page_of (refs k) + page_size) ≡ true = ground (arith, it) in
          rw (kind, top, low, high) (ap (λ t. done (some t)) here)
      | no other ↦
          let out : (leb (page_of (refs k)) ptr && ltb ptr (page_of (refs k) + page_size)) ≡ false =
            ground (arith, other, only k (ground arith)) in
          let ne : j ≢ k = λ e. other (sym e) in
          rw (kind, top, out)
            (find_page_hit p ptr j ks refs (λ l m. ok l (ground (arith, m)))
              (λ l m. only l (ground (arith, m))) (ground (arith, on, ne)) inside)
    ]

find_page_miss :
    (p : PageSource) (ptr : ℕ) (js : List ℕ) (refs : ℕ → Pageref)
    → ((k : ℕ) → member k js ≡ true → Findable refs k)
    → ((k : ℕ) → member k js ≡ true → InPage (page_of (refs k)) ptr → ⊥)
    → find_page p ptr js refs ≡ done none
unfolding find_page
find_page_miss p ptr [] refs ok out = refl
find_page_miss p ptr (k ∷ ks) refs ok out =
    let f = ok k (ground arith) in
    let kind = lt→ltb (type_of (refs k)) nsizes f.0 in
    let top : word (page_of (refs k) + page_size) ≡ page_of (refs k) + page_size =
      omega (arith, f.1) in
    let miss : (leb (page_of (refs k)) ptr && ltb ptr (page_of (refs k) + page_size)) ≡ false =
      ground (arith, out k (ground arith)) in
    rw (kind, top, miss)
      (find_page_miss p ptr ks refs (λ l m. ok l (ground (arith, m)))
        (λ l m. out l (ground (arith, m))))

module _ {p : PageSource} (laws : IsPageSource p) (h : Heap p.State) (free : ℕ → List ℕ)
    (ok : IsHeap laws h free) where
  findable : (k : ℕ) → member k h.allbase ≡ true → Findable h.refs k
  findable k m = ((ok.listed k m).frees.kind, (ok.listed k m).frees.top)

  -- An address in no page of the heap is left to the page allocator: `subpage_kfree` gives -1 and the heap
  -- stays as it is.
  pub subpage_kfree_foreign :
      (ptr : ℕ)
      → ((k : ℕ) → member k h.allbase ≡ true → InPage (page_of (h.refs k)) ptr → ⊥)
      → subpage_kfree p ptr h ≡ done (false, h)
  unfolding subpage_kfree
  subpage_kfree_foreign ptr out =
      rw (subpage_kfree, find_page_miss p ptr h.allbase h.refs findable out) refl

  module _ (j i : ℕ) (v : Live laws h free j i) where
    block-InPage : InPage (page_of (h.refs j)) (block (h.refs j) i)
    block-InPage =
        let f = (ok.listed j v.page).frees in
        (omega arith, omega (arith, block_bound f i v.number, (page-IsSize_in f).low))

    page_found : find_page p (block (h.refs j) i) h.allbase h.refs ≡ done (some j)
    page_found =
        find_page_hit p (block (h.refs j) i) j h.allbase h.refs findable
          (λ k m inside. ok.apart k j m v.page (
            same_page (page_of (h.refs k)) (page_of (h.refs j)) (block (h.refs j) i) (omega arith)
              (omega arith) inside block-InPage))
          v.page block-InPage
      where
        same_page :
            (a b x : ℕ) → a % page_size ≡ 0 → b % page_size ≡ 0 → InPage a x → InPage b x → a ≡ b
        same_page a b x al bl it other = omega (arith, al, bl, it, other)

    -- When every block of the page is free, none of them is live.
    none-Live :
        (freed_count laws h free ok j i v == blocks_in (h.refs j)) ≡ true
        → (l : ℕ) → Live laws (freed_heap laws h free ok j i v) (put free j (i ∷ free j)) j l
        → ⊥
    none-Live full l w =
        let t = freed_heap-Took laws h free ok j i v in
        let f = (t.heap.listed j w.page).frees in
        let number =
          length_lt_of_missing (blocks_in ((freed_heap laws h free ok j i v).refs j)) l
            (put free j (i ∷ free j) j) f.apart f.inside w.number w.taken in
        let many : length (put free j (i ∷ free j) j) ≡ freed_count laws h free ok j i v =
          ap length (put_self free j (i ∷ free j)) in
        let same : blocks_in ((freed_heap laws h free ok j i v).refs j) ≡ blocks_in (h.refs j) =
          ap (λ a. page_size / size_of (a % page_size)) (t.place j w.page) in
        omega (arith, number, many, same, (==_iff _ _).0 full)

    kfree_step :
        (h' : Heap p.State)
        → put_block p (block (h.refs j) i) j h ≡ done h'
        → kfree p (block (h.refs j) i) h ≡ done h'
    unfolding kfree subpage_kfree
    kfree_step h' e =
        let some_block : (block (h.refs j) i == 0) ≡ false =
          ground (arith, (ok.listed j v.page).frees.base) in
        rw (some_block, page_found, e) refl

    -- `kfree` of a live block, in a heap that is in order: it never fails an assertion, and the heap stays
    -- in order. Afterwards the block is not live, every other live block is live, in its place and with
    -- what it holds, and no other is live.
    pub kfree-Took :
        (h' : Heap p.State) × (free' : ℕ → List ℕ) × (kfree p (block (h.refs j) i) h ≡ done h')
        × Took laws h h' free free' j i
    kfree-Took =
        let t = freed_heap-Took laws h free ok j i v in
        let step = put_block_step laws h free ok j i v in
        elim (Bool-cases (freed_count laws h free ok j i v == blocks_in (h.refs j))) [
          | inl full ↦
              let (h', e, r) =
                retire-Retired laws (freed_heap laws h free ok j i v) (put free j (i ∷ free j))
                  t.heap j v.page in
              (
                h',
                put free j (i ∷ free j),
                kfree_step h' (step ∙ rw full e),
                Took-Retired laws t (none-Live full) r,
              )
          | inr some_live ↦ (
            freed_heap laws h free ok j i v,
            put free j (i ∷ free j),
            kfree_step (freed_heap laws h free ok j i v) (step ∙ (rw some_live refl)),
            t,
          )
        ]
