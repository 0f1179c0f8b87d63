-- ===== src/Kheap/Release.antt =====
-- kern/lib/kheap.c: the heap after a block went back to its page.
use mathlib.Core.Path.{subst}
use native.Mathlib.Decide.{ℕ_discrete}
use operating_system.Prelude.{
  ℕ, suc, ◌+◌, ◌-◌, ◌/◌, ◌%◌, ◌^◌, ◌≤◌, ◌<◌, ◌≡◌, ◌≢◌, ◌⊎◌, inl, inr, refl, sym, ap, ◌∙◌, true,
  false, List, ◌∷◌, arith, ◌==◌, ==_iff, length, page_size,
}
use operating_system.Kheap.Source.{PageSource, IsPageSource, InPage}
use operating_system.Kheap.Defs.{Pageref, Heap, size_of, page_of, type_of, put}
use operating_system.Kheap.Freelist.{
  member, block_end, blocks_in, block, start_of, Frees, Frees-frame,
}
use operating_system.Kheap.Blocks.{block_bound, page-IsSize_in, freed_ref, freed-Frees}
use operating_system.Kheap.Invariant.{
  IsListed, IsHeap, Live, InBlock, put_self, put_ne, put_at, put_both,
}
use operating_system.Kheap.Freed.{
  Within, store-Within, Within-trans, fill_deadbeef-Within, filled_pages, freed_heap,
}

module _ {p : PageSource} (laws : IsPageSource p) where
  -- The block `i` of the page `j` is not live any more. The others are, where they were and with what
  -- they held.
  pub record Took (h h' : Heap p.State) (free free' : ℕ → List ℕ) (j i : ℕ) : Type 0 where
    pub heap : IsHeap laws h' free'
    pub gone : Live laws h' free' j i → ⊥
    pub kept : (k l : ℕ) → Live laws h free k l → ((k ≡ j) × (l ≡ i) → ⊥) → Live laws h' free' k l
    pub only : (k l : ℕ) → Live laws h' free' k l → Live laws h free k l
    pub place :
        (k : ℕ)
        → member k h'.allbase ≡ true
        → (h'.refs k).pageaddr_and_blocktype ≡ (h.refs k).pageaddr_and_blocktype
    pub words :
        (k l x : ℕ)
        → Live laws h' free' k l
        → InBlock laws (h.refs k) l x
        → p.load h'.pages x ≡ p.load h.pages x

  module _ (h : Heap p.State) (free : ℕ → List ℕ) (ok : IsHeap laws h free) (j i : ℕ)
      (v : Live laws h free j i) where
    abbrev after : Heap p.State
    after = freed_heap laws h free ok j i v

    abbrev after_free : ℕ → List ℕ
    after_free = put free j (i ∷ free j)

    abbrev new_ref : Pageref
    new_ref = freed_ref (h.refs j) i (suc (length (free j)))

    Within-block :
        Within laws
          (block (h.refs j) i)
          (block (h.refs j) i + size_of (type_of (h.refs j)))
          h.pages
          after.pages
    Within-block =
        let f = (ok.listed j v.page).frees in
        let size = page-IsSize_in f in
        let fits = block_bound f i v.number in
        let filled =
          fill_deadbeef-Within laws (size_of (type_of (h.refs j)) / 4) (block (h.refs j) i)
            (block (h.refs j) i) (block (h.refs j) i + size_of (type_of (h.refs j))) h.pages
            ok.valid (omega arith) (omega (arith, size.fours)) (omega (arith, fits, f.top)) in
        Within-trans laws filled (
          store-Within laws (filled_pages laws h free ok j i v) (block (h.refs j) i)
            (start_of (h.refs j)) (block (h.refs j) i)
            (block (h.refs j) i + size_of (type_of (h.refs j))) filled.valid (omega arith)
            (omega (arith, size.low)) (omega (arith, fits, f.top)))

    head_word : p.load after.pages (block (h.refs j) i) ≡ start_of (h.refs j)
    head_word =
        let f = (ok.listed j v.page).frees in
        let fits = block_bound f i v.number in
        let low : block (h.refs j) i < 2 ^ 32 = omega (arith, fits, f.top) in
        let here : (block (h.refs j) i == block (h.refs j) i) ≡ true = (==_iff _ _).1 refl in
        laws.load-store (filled_pages laws h free ok j i v) (block (h.refs j) i)
          (start_of (h.refs j)) (block (h.refs j) i) low low
        ∙ rw here refl

    -- The words of another block of the page, and of another page, stay.
    block_words :
        (l x : ℕ)
        → l < blocks_in (h.refs j)
        → l ≢ i
        → InBlock laws (h.refs j) l x
        → p.load after.pages x ≡ p.load h.pages x
    block_words l x lt ne inside =
        let f = (ok.listed j v.page).frees in
        let size = page-IsSize_in f in
        let fits = block_bound f l lt in
        Within-block.others x (omega (arith, inside, fits, f.top)) (elim (ℕ-order l i ne) [
          | inl less ↦
              inl (omega (arith, inside, block_end (size_of (type_of (h.refs j))) size l i less))
          | inr more ↦
              inr (omega (arith, inside, block_end (size_of (type_of (h.refs j))) size i l more))
        ])
      where
        ℕ-order : (a b : ℕ) → a ≢ b → (a < b) ⊎ (b < a)
        ℕ-order a b ne = ground arith

    page_words :
        (k x : ℕ)
        → member k h.allbase ≡ true
        → k ≢ j
        → InPage (page_of (h.refs k)) x
        → p.load after.pages x ≡ p.load h.pages x
    page_words k x m ne inside =
        let f = (ok.listed j v.page).frees in
        let fits = block_bound f i v.number in
        let g = (ok.listed k m).frees in
        let differ : page_of (h.refs k) ≢ page_of (h.refs j) = λ e. ne (ok.apart k j m v.page e) in
        Within-block.others x (omega (arith, inside, g.top)) (
          sides (page_of (h.refs k)) (page_of (h.refs j)) (block (h.refs j) i)
            (block (h.refs j) i + size_of (type_of (h.refs j))) x (omega arith) (omega arith) differ
            inside (omega arith) fits)
      where
        sides :
            (a b lo hi x : ℕ)
            → a % page_size ≡ 0
            → b % page_size ≡ 0
            → a ≢ b
            → InPage a x
            → b ≤ lo
            → hi ≤ b + page_size
            → (x < lo) ⊎ (hi ≤ x)
        sides a b lo hi x al bl ne inside low high = elim (dec_less a b) [
          | inl less ↦ inl (omega (arith, al, bl, inside))
          | inr more ↦ inr (omega (arith, al, bl, inside))
        ]
          where
            dec_less : (a b : ℕ) → (a < b) ⊎ (b ≤ a)
            dec_less a b = ground arith

    after_place :
        (k : ℕ) → (after.refs k).pageaddr_and_blocktype ≡ (h.refs k).pageaddr_and_blocktype
    after_place k =
        put_at (λ r. r.pageaddr_and_blocktype ≡ (h.refs k).pageaddr_and_blocktype) h.refs j k
          new_ref (λ here. ap (λ t. (h.refs t).pageaddr_and_blocktype) (sym here)) (λ other. refl)

    after-IsListed : (k : ℕ) → member k h.allbase ≡ true → IsListed laws after after_free k
    after-IsListed k m =
        let old = ok.listed k m in
        record {
          small = old.small;
          used = old.used;
          owned =
              Within-block.owned (page_of (after.refs k)) (
                subst (λ a. laws.Owned h.pages (a - a % page_size)) (sym (after_place k))
                  old.owned);
          frees =
              put_both (Frees (p.load after.pages)) h.refs free j k new_ref (i ∷ free j)
                (λ here.
                  freed-Frees i (ok.listed j v.page).frees v.number v.taken head_word (λ l lt ne.
                    block_words l (block (h.refs j) l) lt ne (
                      omega arith,
                      omega (arith, (page-IsSize_in (ok.listed j v.page).frees).low),
                    )))
                (λ ne.
                  Frees-frame
                    (λ l lt. page_words k (block (h.refs k) l) m ne (
                      omega arith,
                      omega (arith, block_bound old.frees l lt, (page-IsSize_in old.frees).low),
                    ))
                    old.frees);
        }

    after-IsHeap : IsHeap laws after after_free
    after-IsHeap = record {
      valid = Within-block.valid;
      records = ok.records;
      listed = after-IsListed;
      apart = λ k l m n e. ok.apart k l m n (
          sym (ap (λ a. a - a % page_size) (after_place k))
          ∙ e
          ∙ ap (λ a. a - a % page_size) (after_place l));
      sized = λ b k m.
          ((ok.sized b k m).0, ap (λ a. a % page_size) (after_place k) ∙ (ok.sized b k m).1);
      once = ok.once;
      once_sized = ok.once_sized;
    }

    after_many : (k : ℕ) → blocks_in (after.refs k) ≡ blocks_in (h.refs k)
    after_many k = ap (λ a. page_size / size_of (a % page_size)) (after_place k)

    after_only :
        (k l : ℕ) → Live laws after after_free k l → Live laws h free k l × ((k ≡ j) × (l ≡ i) → ⊥)
    after_only k l w = elim (ℕ_discrete k j) [
      | yes here ↦
          let left : member l (i ∷ free j) ≡ false =
            sym (ap (member l) (ap after_free here ∙ put_self free j (i ∷ free j))) ∙ w.taken in
          (
            record {
              page = w.page;
              number = omega (arith, w.number, after_many k);
              taken = ap (λ t. member l (free t)) here ∙ ground (arith, left);
            },
            λ it. ground (arith, it.1, left),
          )
      | no there ↦ (
        record {
          page = w.page;
          number = omega (arith, w.number, after_many k);
          taken = sym (ap (member l) (put_ne free j k (i ∷ free j) there)) ∙ w.taken;
        },
        λ it. there it.0,
      )
    ]

    pub freed_heap-Took : Took h after free after_free j i
    freed_heap-Took = record {
      heap = after-IsHeap;
      gone = λ w. (after_only j i w).1 (refl, refl);
      kept = λ k l w ne. record {
        page = w.page;
        number = omega (arith, w.number, after_many k);
        taken =
            put_at (λ fs. member l fs ≡ false) free j k (i ∷ free j)
              (λ here.
                let differ : l ≢ i = λ same. ne (here, same) in
                ground (arith, sym (ap (λ t. member l (free t)) here) ∙ w.taken, differ))
              (λ other. w.taken);
      };
      only = λ k l w. (after_only k l w).0;
      place = λ k m. after_place k;
      words = λ k l x w inside. elim (ℕ_discrete k j) [
        | yes here ↦
            let old = (after_only k l w).0 in
            block_words l x (subst (λ t. l < blocks_in (h.refs t)) here old.number)
              (λ same. (after_only k l w).1 (here, same))
              (subst (λ t. InBlock laws (h.refs t) l x) here inside)
        | no there ↦
            let old = (after_only k l w).0 in
            let f = (ok.listed k old.page).frees in
            page_words k x old.page there
              (omega (arith, inside), omega (arith, inside, block_bound f l old.number))
      ];
    }
