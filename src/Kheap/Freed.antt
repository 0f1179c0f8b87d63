-- ===== src/Kheap/Freed.antt =====
-- kern/lib/kheap.c: a block that goes back to its page.
use mathlib.Core.Path.{subst}
use operating_system.Prelude.{
  ℕ, zero, suc, ◌+◌, ◌-◌, ◌*◌, ◌/◌, ◌%◌, ◌^◌, ◌≤◌, ◌<◌, ◌≡◌, ◌⊎◌, inl, inr, refl, sym, ◌∙◌, true,
  false, List, [], ◌∷◌, arith, ltb, leb, lt→ltb, ◌==◌, ==_iff, if◌then◌else◌, Bool-cases, length,
  page_size, word, done,
}
use operating_system.Kheap.Source.{PageSource, IsPageSource}
use operating_system.Kheap.Defs.{
  Pageref, Heap, size_of, page_of, type_of, invalid_offset, u16, put, fill_deadbeef, retire,
  put_block,
}
use operating_system.Kheap.Freelist.{
  length_lt_of_missing, block-mod, blocks_in, block, start_of, Frees,
}
use operating_system.Kheap.Blocks.{block_bound, page-IsSize_in, start_offset, freed_ref}
use operating_system.Kheap.Invariant.{IsHeap, Live}

-- What stores within the words from `lo` up to `hi` leave.
pub record Within {p : PageSource} (laws : IsPageSource p) (lo hi : ℕ) (s s' : p.State)
    : Type 0 where
  pub valid : laws.Valid s'
  pub owned : (page : ℕ) → laws.Owned s page → laws.Owned s' page
  pub others : (x : ℕ) → x < 2 ^ 32 → (x < lo) ⊎ (hi ≤ x) → p.load s' x ≡ p.load s x

module _ {p : PageSource} (laws : IsPageSource p) where
  pub store-Within :
      (s : p.State) (a v lo hi : ℕ)
      → laws.Valid s
      → lo ≤ a
      → a < hi
      → hi < 2 ^ 32
      → Within laws lo hi s (p.store a v s)
  store-Within s a v lo hi ok low high top = record {
    valid = laws.store-Valid s a v ok;
    owned = λ page o. laws.store-Owned s a v page o;
    others = λ x lt out.
        let other : (x == a) ≡ false = ground arith in
        laws.load-store s a v x (omega arith) lt ∙ rw other refl;
  }

  pub Within-trans :
      {lo hi : ℕ} {s s1 s2 : p.State}
      → Within laws lo hi s s1
      → Within laws lo hi s1 s2
      → Within laws lo hi s s2
  Within-trans f g = record {
    valid = g.valid;
    owned = λ page o. g.owned page (f.owned page o);
    others = λ x lt out. g.others x lt out ∙ f.others x lt out;
  }

  pub fill_deadbeef-Within :
      (n ptr lo hi : ℕ) (s : p.State)
      → laws.Valid s
      → lo ≤ ptr
      → ptr + n * 4 ≤ hi
      → hi < 2 ^ 32
      → Within laws lo hi s (fill_deadbeef p n ptr s)
  unfolding fill_deadbeef
  fill_deadbeef-Within zero ptr lo hi s ok low fits top = record {
    valid = ok;
    owned = λ page o. o;
    others = λ x lt out. refl;
  }
  fill_deadbeef-Within (suc n) ptr lo hi s ok low fits top =
      let next : word (ptr + 4) ≡ ptr + 4 = omega arith in
      Within-trans (store-Within s ptr 0xdeadbeef lo hi ok low (omega arith) top) (
        subst
          (λ a.
            Within laws lo hi (p.store ptr 0xdeadbeef s)
              (fill_deadbeef p n a (p.store ptr 0xdeadbeef s)))
          (sym next)
          (fill_deadbeef-Within n (ptr + 4) lo hi (p.store ptr 0xdeadbeef s)
            (laws.store-Valid s ptr 0xdeadbeef ok) (omega arith) (omega arith) top))

  -- An offset that is not the invalid one is inside the page.
  some_offset :
      {load : ℕ → ℕ} {pr : Pageref} (is : List ℕ)
      → Frees load pr is
      → (pr.freelist_offset == invalid_offset) ≡ false
      → pr.freelist_offset < page_size
  some_offset {load} {pr} [] f some_free = absurd (ground (arith, f.base, f.chain, some_free))
  some_offset {load} {pr} (i ∷ is) f some_free =
      (start_offset f i (f.inside i (ground arith)) f.chain.0).1

  module _ (h : Heap p.State) (free : ℕ → List ℕ) (ok : IsHeap laws h free) (j i : ℕ)
      (v : Live laws h free j i) where
    abbrev pub old_frees : Frees (p.load h.pages) (h.refs j) (free j)
    old_frees = (ok.listed j v.page).frees

    abbrev pub freed_count : ℕ
    freed_count = suc (length (free j))

    abbrev pub filled_pages : p.State
    filled_pages = fill_deadbeef p (size_of (type_of (h.refs j)) / 4) (block (h.refs j) i) h.pages

    abbrev pub freed_pages : p.State
    freed_pages = p.store (block (h.refs j) i) (start_of (h.refs j)) filled_pages

    abbrev pub freed_heap : Heap p.State
    freed_heap = record h {
      pages = freed_pages;
      refs = put h.refs j (freed_ref (h.refs j) i freed_count);
    }

    pub count_bound : freed_count ≤ blocks_in (h.refs j)
    count_bound =
        length_lt_of_missing (blocks_in (h.refs j)) i (free j) old_frees.apart old_frees.inside
          v.number v.taken

    -- The link that the block gets is the head of the list.
    next_start :
        (if (h.refs j).freelist_offset == invalid_offset
          then 0
          else word (page_of (h.refs j) + (h.refs j).freelist_offset))
        ≡ start_of (h.refs j)
    next_start = elim (Bool-cases ((h.refs j).freelist_offset == invalid_offset)) [
      | inl none_free ↦ rw none_free refl
      | inr some_free ↦
          let low = some_offset (free j) old_frees some_free in
          let short : word (page_of (h.refs j) + (h.refs j).freelist_offset)
              ≡ page_of (h.refs j) + (h.refs j).freelist_offset =
            omega (arith, low, old_frees.top) in
          rw (some_free, short) refl
    ]

    pub put_block_step :
        put_block p (block (h.refs j) i) j h
        ≡ (if freed_count == blocks_in (h.refs j) then retire p j freed_heap else done freed_heap)
    unfolding put_block
    put_block_step =
        let size = page-IsSize_in old_frees in
        let fits = block_bound old_frees i v.number in
        let few = size.few in
        let bound = count_bound in
        let offset : word (block (h.refs j) i + 2 ^ 32 - page_of (h.refs j))
            ≡ i * size_of (type_of (h.refs j)) =
          omega (arith, fits, old_frees.top) in
        let inside : ltb (i * size_of (type_of (h.refs j))) page_size ≡ true =
          lt→ltb _ _ (omega (arith, fits, size.low)) in
        let whole : (i * size_of (type_of (h.refs j)) % size_of (type_of (h.refs j)) == 0) ≡ true =
          (==_iff _ _).1 (block-mod (size_of (type_of (h.refs j))) size i) in
        let count : u16 ((h.refs j).nfree + 1) ≡ freed_count =
          omega (arith, old_frees.count, few, bound) in
        let enough : leb freed_count (blocks_in (h.refs j)) ≡ true = ground (arith, bound) in
        let there : word (block (h.refs j) i) ≡ block (h.refs j) i =
          omega (arith, fits, old_frees.top, size.low) in
        let short : u16 (i * size_of (type_of (h.refs j))) ≡ i * size_of (type_of (h.refs j)) =
          omega (arith, fits, size.low) in
        rw (offset, inside, whole, next_start, count, enough, there, short) refl
