-- ===== src/Kheap/Whole.antt =====
-- kern/lib/kheap.c: kmalloc and kfree of a whole page, which go to the page allocator.
use operating_system.Prelude.{
  ℕ, ◌+◌, ◌-◌, ◌/◌, ◌%◌, ◌≤◌, ◌<◌, ◌≡◌, ◌≢◌, ◌⊎◌, inl, inr, refl, ap, true, false, List, arith, leb,
  ◌==◌, ==_iff, page_size, word, done,
}
use operating_system.Kheap.Source.{PageSource, IsPageSource, InPage}
use operating_system.Kheap.Defs.{Heap, page_of, subpage_kfree, kmalloc, kfree}
use operating_system.Kheap.Freelist.{member}
use operating_system.Kheap.Invariant.{IsHeap}
use operating_system.Kheap.Free.{subpage_kfree_foreign}
use operating_system.Kheap.Pair.{SameLive, page-SameLive}
use mathlib.Core.Path.{subst}

-- Pages that share a word are the same.
same_page : (a b x : ℕ) → a % page_size ≡ 0 → b % page_size ≡ 0 → InPage a x → InPage b x → a ≡ b
same_page a b x al bl here there = omega (arith, al, bl, here, there)

module _ {p : PageSource} (laws : IsPageSource p) where
  -- A page in use that is none of the heap's.
  pub record IsWhole (h : Heap p.State) (a : ℕ) : Type 0 where
    pub some_page : 0 < a
    pub aligned : a % page_size ≡ 0
    pub owned : laws.Owned h.pages a
    pub apart : (k : ℕ) → member k h.allbase ≡ true → page_of (h.refs k) ≢ a

  module _ (h : Heap p.State) (free : ℕ → List ℕ) (ok : IsHeap laws h free) where
    kmalloc_step :
        (sz a : ℕ) (s : p.State)
        → 2048 ≤ sz
        → sz ≤ page_size
        → p.alloc 1 h.pages ≡ done (a, s)
        → kmalloc p sz h ≡ done (a, record h { pages = s })
    unfolding kmalloc
    kmalloc_step sz a s low high e =
        let large : leb 2048 sz ≡ true = ground arith in
        let one : word (sz + page_size - 1) / page_size ≡ 1 = omega arith in rw (large, one, e) refl

    -- `kmalloc` for 2048 bytes up to a page, in a heap that is in order: it never fails an assertion, and
    -- gives NULL, or a page in use that is none of the heap's. The heap stays in order, and the same
    -- blocks are live, in their places and with what they held.
    pub kmalloc-IsWhole :
        (sz : ℕ)
        → 2048 ≤ sz
        → sz ≤ page_size
        → (a : ℕ) × (h' : Heap p.State) × (kmalloc p sz h ≡ done (a, h'))
          × SameLive laws h h' free free
          × ((a ≡ 0) ⊎ IsWhole h' a)
    kmalloc-IsWhole sz low high =
        let (a, s, e, valid, keeps, answer) = laws.alloc_lem h.pages ok.valid in
        let owned = λ (k : ℕ) (m : member k h.allbase ≡ true).
          keeps (page_of (h.refs k)) (ok.listed k m).owned in
        let step = kmalloc_step sz a s low high e in
        elim answer [
          | inl (zero_addr, same) ↦ (
            a,
            record h { pages = s },
            step,
            page-SameLive laws h free s ok valid owned (λ k x m inside. ap (λ t. p.load t x) same),
            inl zero_addr,
          )
          | inr g ↦ (
            a,
            record h { pages = s },
            step,
            page-SameLive laws h free s ok valid owned (λ k x m inside.
                g.same x (omega (arith, inside, (ok.listed k m).frees.top)) (λ there. g.fresh (
                  subst (laws.Owned h.pages)
                    (same_page (page_of (h.refs k)) a x (omega arith) g.aligned inside there)
                    (ok.listed k m).owned))),
            inr (record {
              some_page = g.some_page;
              aligned = g.aligned;
              owned = g.owned;
              apart = λ k m same. g.fresh (subst (laws.Owned h.pages) same (ok.listed k m).owned);
            }),
          )
        ]

    kfree_step :
        (a : ℕ) (s : p.State)
        → 0 < a
        → a % page_size ≡ 0
        → subpage_kfree p a h ≡ done (false, h)
        → p.free a h.pages ≡ done s
        → kfree p a h ≡ done (record h { pages = s })
    unfolding kfree
    kfree_step a s some_page al miss e =
        let some_addr : (a == 0) ≡ false = ground arith in
        let whole : (a % page_size == 0) ≡ true = (==_iff _ _).1 al in
        rw (some_addr, miss, whole, e) refl

    -- `kfree` of such a page never fails an assertion. The heap stays in order, and the same blocks are
    -- live, in their places and with what they held.
    pub kfree-SameLive :
        (a : ℕ)
        → IsWhole h a
        → (h' : Heap p.State) × (kfree p a h ≡ done h') × SameLive laws h h' free free
    kfree-SameLive a w =
        let (s, e, valid, keeps, same) = laws.free_lem h.pages a ok.valid w.owned in
        let miss = subpage_kfree_foreign laws h free ok a (λ k m inside. w.apart k m (
          same_page (page_of (h.refs k)) a a (omega arith) w.aligned inside
            (omega arith, omega arith))) in
        (
          record h { pages = s },
          kfree_step a s w.some_page w.aligned miss e,
          page-SameLive laws h free s ok valid
              (λ k m. keeps (page_of (h.refs k)) (w.apart k m) (ok.listed k m).owned)
              (λ k x m inside. same x),
        )
