-- ===== src/Kheap/Filled.antt =====
-- kern/lib/kheap.c: the record of a new page, all of whose blocks are free.
use operating_system.Prelude.{
  ℕ, suc, ◌+◌, ◌-◌, ◌*◌, ◌/◌, ◌%◌, ◌^◌, ◌<◌, ◌≡◌, refl, sym, ap, ◌∙◌, true, ◌∷◌, arith, ◌==◌,
  ==_iff, page_size, word, done,
}
use operating_system.Kheap.Source.{PageSource, IsPageSource, InPage}
use operating_system.Kheap.Defs.{
  Pageref, Heap, size_of, nsizes, page_of, type_of, u16, put, mkpab, link, add_page,
}
use operating_system.Kheap.Freelist.{size_of-IsSize, block_end, block_inside, block, Frees}
use operating_system.Kheap.Blocks.{down, fresh-Frees}
use operating_system.Kheap.Growth.{Linked, link_lem, stored, kept}

-- The blocks of a page, but for the first
abbrev pub rest_of : ℕ → ℕ
rest_of b = page_size / size_of b - 1

abbrev pub fresh_ref : ℕ → ℕ → Pageref
fresh_ref prpage b = record {
  pageaddr_and_blocktype = mkpab prpage b;
  freelist_offset = rest_of b * size_of b;
  nfree = page_size / size_of b;
}

abbrev pub filled : {S : Type 0} → Heap S → ℕ → ℕ → ℕ → S → Heap S
filled h j prpage b s = record h {
  pages = s;
  refs = put h.refs j (fresh_ref prpage b);
  sizebases = put h.sizebases b (j ∷ h.sizebases b);
  allbase = j ∷ h.allbase;
}

module _ {p : PageSource} (laws : IsPageSource p) (h : Heap p.State) (j prpage b : ℕ)
    (some_page : 0 < prpage) (aligned : prpage % page_size ≡ 0) (top : prpage + page_size < 2 ^ 32)
    (kind : b < nsizes) where
  pub fresh_page : page_of (fresh_ref prpage b) ≡ prpage
  fresh_page = omega arith

  pub fresh_type : type_of (fresh_ref prpage b) ≡ b
  fresh_type = omega arith

  fresh_block : (k : ℕ) → block (fresh_ref prpage b) k ≡ prpage + k * size_of b
  fresh_block k =
      ap (λ a. a + k * size_of (type_of (fresh_ref prpage b))) fresh_page
      ∙ ap (λ t. prpage + k * size_of t) fresh_type

  pub record Filled (s' : p.State) : Type 0 where
    pub made : add_page p j prpage b h ≡ done (filled h j prpage b s')
    pub frees : Frees (p.load s') (fresh_ref prpage b) (down (suc (rest_of b)))
    pub valid : laws.Valid s'
    pub owned : (page : ℕ) → laws.Owned h.pages page → laws.Owned s' page
    pub others : (x : ℕ) → x < 2 ^ 32 → (InPage prpage x → ⊥) → p.load s' x ≡ p.load h.pages x

  made_lem :
      (s' : p.State)
      → link p (rest_of b) 1 prpage (size_of b) prpage (p.store prpage 0 h.pages)
        ≡ done (prpage + (rest_of b) * size_of b, s')
      → add_page p j prpage b h ≡ done (filled h j prpage b s')
  unfolding add_page
  made_lem s' e =
      let size = size_of-IsSize b kind in
      let last = block_inside (size_of b) size (rest_of b) (omega (arith, size.many)) in
      let count : u16 (page_size / size_of b) ≡ page_size / size_of b = omega (arith, size.few) in
      let offset : u16 (word (prpage + (rest_of b) * size_of b + 2 ^ 32 - prpage))
          ≡ (rest_of b) * size_of b =
        omega (arith, last, size.low) in
      let right : ((rest_of b) * size_of b == (rest_of b) * size_of b) ≡ true =
        (==_iff _ _).1 refl in
      rw (count, e, offset, right) refl

  module _ (s' : p.State)
      (l : Linked laws prpage
        (size_of b)
        (size_of-IsSize b kind)
        top
        1
        (1 + (rest_of b))
        (p.store prpage 0 h.pages)
        s') where
    filled_first : p.load s' prpage ≡ 0
    filled_first =
        let size = size_of-IsSize b kind in
        l.others prpage (omega arith)
          (λ k lo hi same. omega (arith, block_end (size_of b) size 0 k (omega arith), size.low))
        ∙ stored laws prpage (size_of b) size top h.pages prpage 0 (omega arith)

    filled_Frees : Frees (p.load s') (fresh_ref prpage b) (down (suc (rest_of b)))
    filled_Frees =
        let size = size_of-IsSize b kind in
        fresh-Frees (p.load s') (fresh_ref prpage b) (rest_of b) (omega (arith, fresh_page))
          (omega (arith, fresh_page)) (omega (arith, fresh_type))
          (ap (λ t. page_size / size_of t) fresh_type ∙ omega (arith, size.many))
          (ap (λ t. (rest_of b) * size_of t) (sym fresh_type)) (omega (arith, size.many))
          (ap (p.load s') fresh_page ∙ filled_first)
          (λ k lt.
            ap (p.load s') (fresh_block (suc k))
            ∙ l.chained (suc k) (omega arith) (omega arith)
            ∙ ap (λ n. prpage + n * size_of b) (omega arith)
            ∙ sym (fresh_block k))

  pub add_page-Filled : laws.Valid h.pages → (s' : p.State) × Filled s'
  add_page-Filled v =
      let size = size_of-IsSize b kind in
      let (s', e, l) =
        link_lem laws prpage (size_of b) size top (rest_of b) 1 prpage (p.store prpage 0 h.pages)
          (laws.store-Valid h.pages prpage 0 v) (omega arith) (omega (arith, size.many))
          (omega arith) in
      (
        s',
        record {
          made = made_lem s' (e ∙ ap (λ n. done (prpage + n * size_of b, s')) (omega arith));
          frees = filled_Frees s' l;
          valid = l.valid;
          owned = λ page o. l.owned page (laws.store-Owned h.pages prpage 0 page o);
          others = λ x lt out.
              l.others x lt (λ k lo hi same. out (
                omega arith,
                omega (arith, block_inside (size_of b) size k (omega (arith, size.many)), size.low),
              ))
              ∙ kept laws prpage (size_of b) size top h.pages prpage 0 x (omega arith) lt
                  (λ same. out (omega arith, omega arith));
        },
      )
