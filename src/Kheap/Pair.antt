-- ===== src/Kheap/Pair.antt =====
-- kern/lib/kheap.c: kmalloc and kfree together, and what they do with a whole page.
use mathlib.Core.Path.{subst, subst₂}
use native.Mathlib.Decide.{ℕ_discrete}
use operating_system.Prelude.{
  ℕ, ◌+◌, ◌*◌, ◌%◌, ◌≤◌, ◌<◌, ◌≡◌, ◌⊎◌, inl, inr, refl, sym, ap, ◌∙◌, true, false, List, arith, leb,
  ◌==◌, page_size, done,
}
use operating_system.Kheap.Source.{PageSource, IsPageSource, InPage}
use operating_system.Kheap.Defs.{Heap, size_of, page_of, type_of, kmalloc, kfree}
use operating_system.Kheap.Freelist.{member, Frees-frame, IsSize, block_end, block}
use operating_system.Kheap.Blocks.{block_bound, page-IsSize_in}
use operating_system.Kheap.Invariant.{IsHeap, Live, InBlock, Gave}
use operating_system.Kheap.Alloc.{Answer, refused, gave, InBlock-place, subpage_kmalloc-Answer}
use operating_system.Kheap.Release.{Took}
use operating_system.Kheap.Free.{kfree-Took}

module _ {p : PageSource} (laws : IsPageSource p) where
  -- Blocks of one page that share a word are one block.
  same_block :
      (size i l base x : ℕ)
      → IsSize size
      → base + i * size ≤ x
      → x < base + i * size + size
      → base + l * size ≤ x
      → x < base + l * size + size
      → i ≡ l
  same_block size i l base x h low high low' high' = elim (order i l) [
    | inl same ↦ same
    | inr (inl less) ↦ absurd (omega (arith, block_end size h i l less))
    | inr (inr more) ↦ absurd (omega (arith, block_end size h l i more))
  ]
    where
      order : (i l : ℕ) → (i ≡ l) ⊎ ((i < l) ⊎ (l < i))
      order i l = elim (ℕ_discrete i l) [ yes same ↦ inl same | no ne ↦ inr (ground arith) ]

  -- Two live blocks with an address in common are the same block.
  Live-apart :
      (h : Heap p.State) (free : ℕ → List ℕ) (j i k l x : ℕ)
      → IsHeap laws h free
      → Live laws h free j i
      → Live laws h free k l
      → InBlock laws (h.refs j) i x
      → InBlock laws (h.refs k) l x
      → (j ≡ k) × (i ≡ l)
  Live-apart h free j i k l x ok v w here there =
      let f = (ok.listed j v.page).frees in
      let g = (ok.listed k w.page).frees in
      let page : page_of (h.refs j) ≡ page_of (h.refs k) =
        same_page (page_of (h.refs j)) (page_of (h.refs k)) x (omega arith) (omega arith)
          (omega (arith, here), omega (arith, here, block_bound f i v.number))
          (omega (arith, there), omega (arith, there, block_bound g l w.number)) in
      let same = ok.apart j k v.page w.page page in
      let there' = subst (λ t. InBlock laws (h.refs t) l x) (sym same) there in
      (
        same,
        same_block (size_of (type_of (h.refs j))) i l (page_of (h.refs j)) x (page-IsSize_in f)
            here.0 here.1 there'.0 there'.1,
      )
    where
      same_page :
          (a b x : ℕ) → a % page_size ≡ 0 → b % page_size ≡ 0 → InPage a x → InPage b x → a ≡ b
      same_page a b x al bl it other = omega (arith, al, bl, it, other)

  -- The same blocks are live in both, where they were and with what they held.
  pub record SameLive (h h' : Heap p.State) (free free' : ℕ → List ℕ) : Type 0 where
    pub heap : IsHeap laws h' free'
    pub kept : (j i : ℕ) → Live laws h free j i → Live laws h' free' j i
    pub only : (j i : ℕ) → Live laws h' free' j i → Live laws h free j i
    pub place :
        (j i : ℕ)
        → Live laws h free j i
        → (h'.refs j).pageaddr_and_blocktype ≡ (h.refs j).pageaddr_and_blocktype
    pub words :
        (j i x : ℕ)
        → Live laws h free j i
        → InBlock laws (h.refs j) i x
        → p.load h'.pages x ≡ p.load h.pages x

  Gave-Took :
      {h h1 h2 : Heap p.State} {free free1 free2 : ℕ → List ℕ} {j i : ℕ}
      → Gave laws h h1 free free1 j i
      → Took laws h1 h2 free1 free2 j i
      → SameLive h h2 free free2
  Gave-Took {h} {h1} {h2} {free} {free1} {free2} {j} {i} g t = record {
    heap = t.heap;
    kept = back;
    only = λ k l v. elim (g.only k l (t.only k l v)) [
      | inl (same_page, same) ↦
          absurd (t.gone (subst₂ (λ a b. Live laws h2 free2 a b) same_page same v))
      | inr old ↦ old
    ];
    place = λ k l v. t.place k (back k l v).page ∙ g.place k v.page;
    words = λ k l x v inside.
        t.words k l x (back k l v)
          (InBlock-place laws (h.refs k) (h1.refs k) l x (g.place k v.page) inside)
        ∙ g.words k l x v inside;
  }
    where
      back : (k l : ℕ) → Live laws h free k l → Live laws h2 free2 k l
      back k l v =
          t.kept k l (g.kept k l v)
            (λ it. g.fresh (subst₂ (λ a b. Live laws h free a b) it.0 it.1 v))

  -- `kmalloc` for less than 2048 bytes, in a heap that is in order, and `kfree` of its answer never fail
  -- an assertion. Where the answer is not NULL, the heap is in order after both, and the live blocks are
  -- those that were live before, in their places and with what they held.
  pub kfree-kmalloc :
      (sz : ℕ) (h : Heap p.State) (free : ℕ → List ℕ)
      → sz < 2048
      → IsHeap laws h free
      → (a : ℕ) × (h1 h2 : Heap p.State) × (free2 : ℕ → List ℕ) × (kmalloc p sz h ≡ done (a, h1))
        × (kfree p a h1 ≡ done h2)
        × ((a ≡ 0) ⊎ SameLive h h2 free free2)
  unfolding kmalloc kfree
  kfree-kmalloc sz h free small ok =
      let fits : leb 2048 sz ≡ false = ground arith in
      let (a, h1, e, answer) = subpage_kmalloc-Answer laws sz h free (omega arith) ok in
      both a h1 (rw fits e) answer
    where
      both :
          (a : ℕ) (h1 : Heap p.State)
          → kmalloc p sz h ≡ done (a, h1)
          → Answer laws sz h free a h1
          → (a : ℕ) × (h1 h2 : Heap p.State) × (free2 : ℕ → List ℕ) × (kmalloc p sz h
              ≡ done (a, h1))
            × (kfree p a h1 ≡ done h2)
            × ((a ≡ 0) ⊎ SameLive h h2 free free2)
      both a h1 e (refused zero_addr same) =
          let here : (a == 0) ≡ true = ground arith in
          (a, h1, h1, free, e, rw here refl, inl zero_addr)
      both a h1 e (gave j i free1 place fits g) =
          let (h2, free2, e', t) = kfree-Took laws h1 free1 g.heap j i g.live in
          (a, h1, h2, free2, e, ap (λ x. kfree p x h1) place ∙ e', inr (Gave-Took g t))

  -- `kmalloc` for less than 2048 bytes, in a heap that is in order, never fails an assertion. Where its
  -- answer is not NULL, the bytes that were asked for, from the answer on, are in no block that was live.
  pub kmalloc_disjoint :
      (sz : ℕ) (h : Heap p.State) (free : ℕ → List ℕ)
      → sz < 2048
      → IsHeap laws h free
      → (a : ℕ) × (h' : Heap p.State) × (kmalloc p sz h ≡ done (a, h'))
        × ((a ≡ 0)
            ⊎ ((k l x : ℕ)
                → Live laws h free k l
                → InBlock laws (h.refs k) l x
                → (a ≤ x) × (x < a + sz)
                → ⊥))
  unfolding kmalloc
  kmalloc_disjoint sz h free small ok =
      let fits : leb 2048 sz ≡ false = ground arith in
      let (a, h', e, answer) = subpage_kmalloc-Answer laws sz h free (omega arith) ok in
      (a, h', rw fits e, apart a h' answer)
    where
      apart :
          (a : ℕ) (h' : Heap p.State)
          → Answer laws sz h free a h'
          → (a ≡ 0)
            ⊎ ((k l x : ℕ)
                → Live laws h free k l
                → InBlock laws (h.refs k) l x
                → (a ≤ x) × (x < a + sz)
                → ⊥)
      apart a h' (refused zero_addr same) = inl zero_addr
      apart a h' (gave j i free' place room g) = inr (λ k l x v inside asked.
          let there = InBlock-place laws (h.refs k) (h'.refs k) l x (g.place k v.page) inside in
          let here : InBlock laws (h'.refs j) i x =
            (omega (arith, place, asked), omega (arith, place, room, asked)) in
          let (same_page, same) =
            Live-apart h' free' j i k l x g.heap g.live (g.kept k l v) here there in
          g.fresh (subst₂ (λ b c. Live laws h free b c) (sym same_page) (sym same) v))

  -- The heap where a page came that it does not know of
  pub page-SameLive :
      (h : Heap p.State) (free : ℕ → List ℕ) (s : p.State)
      → IsHeap laws h free
      → laws.Valid s
      → ((k : ℕ) → member k h.allbase ≡ true → laws.Owned s (page_of (h.refs k)))
      → ((k x : ℕ)
          → member k h.allbase ≡ true
          → InPage (page_of (h.refs k)) x
          → p.load s x ≡ p.load h.pages x)
      → SameLive h (record h { pages = s }) free free
  page-SameLive h free s ok valid owned same = record {
    heap = record {
      valid = valid;
      records = ok.records;
      listed = λ k m.
          let old = ok.listed k m in
          let f = old.frees in
          record {
            small = old.small;
            used = old.used;
            frees =
                Frees-frame
                  (λ l lt.
                    same k (block (h.refs k) l) m
                      (omega arith, omega (arith, block_bound f l lt, (page-IsSize_in f).low)))
                  f;
            owned = owned k m;
          };
      apart = ok.apart;
      sized = ok.sized;
      once = ok.once;
      once_sized = ok.once_sized;
    };
    kept = λ j i v. record { page = v.page; number = v.number; taken = v.taken };
    only = λ j i v. record { page = v.page; number = v.number; taken = v.taken };
    place = λ j i v. refl;
    words = λ j i x v inside.
        let f = (ok.listed j v.page).frees in
        same j x v.page (omega (arith, inside), omega (arith, inside, block_bound f i v.number));
  }
