-- ===== src/Kheap/Blocks.antt =====
-- kern/lib/kheap.c: what taking a block from a page and giving one back make of its free list.
use mathlib.Core.Path.{subst}
use native.Mathlib.Decide.{ℕ_discrete}
use operating_system.Prelude.{
  ℕ, zero, suc, ◌+◌, ◌-◌, ◌*◌, ◌^◌, ◌≤◌, ◌<◌, ◌≡◌, ◌≢◌, inl, inr, refl, sym, ap, ◌∙◌, true, false,
  List, [], ◌∷◌, arith, ltb, lt→ltb, ltb→lt, ◌==◌, ==_iff, length, Bool-cases, page_size, word,
  done,
}
use operating_system.Kheap.Source.{PageSource}
use operating_system.Kheap.Defs.{
  Pageref, Heap, size_of, nsizes, page_of, type_of, invalid_offset, u16, put, take_block,
}
use operating_system.Kheap.Freelist.{
  member, NoRepeat, length_lt_of_missing, IsSize, size_of-IsSize, block_inside, Chain, Chain-frame,
  blocks_in, block, start_of, Frees,
}

module _ {load : ℕ → ℕ} {pr : Pageref} {is : List ℕ} (f : Frees load pr is) where
  pub page-IsSize_in : IsSize (size_of (type_of pr))
  page-IsSize_in = size_of-IsSize (type_of pr) f.kind

  pub block_bound :
      (i : ℕ) → i < blocks_in pr → block pr i + size_of (type_of pr) ≤ page_of pr + page_size
  block_bound i lt = omega (arith, block_inside (size_of (type_of pr)) page-IsSize_in i lt)

  pub length_few : length is ≤ 256
  length_few = few is f.apart f.inside
    where
      few :
          (is : List ℕ)
          → NoRepeat is
          → ((i : ℕ) → member i is ≡ true → i < blocks_in pr)
          → length is ≤ 256
      few [] h lt = omega arith
      few (x ∷ xs) h lt = omega (
        arith,
        page-IsSize_in.few,
        length_lt_of_missing (blocks_in pr) x xs h.1 (λ k m. lt k (ground (arith, m)))
            (lt x (ground arith)) h.0,
      )

  -- A free list that begins at a block has its offset.
  pub start_offset :
      (i : ℕ)
      → i < blocks_in pr
      → start_of pr ≡ block pr i
      → (pr.freelist_offset ≡ i * size_of (type_of pr)) × (pr.freelist_offset < page_size)
  start_offset i lt e = elim (Bool-cases (pr.freelist_offset == invalid_offset)) [
    | inl none_free ↦ absurd (ground (arith, f.base, none_free, e))
    | inr some_free ↦
        let same : page_of pr + pr.freelist_offset ≡ block pr i = ground (arith, some_free, e) in
        (omega (arith, same), omega (arith, same, block_bound i lt, page-IsSize_in.low))
  ]

module _ (p : PageSource) (h : Heap p.State) (j : ℕ) where
  -- What the last block, and another one, leave of the record
  abbrev last_ref : Pageref
  last_ref = record (h.refs j) { freelist_offset = invalid_offset; nfree = 0 }

  abbrev next_ref : ℕ → ℕ → Pageref
  next_ref k n = record (h.refs j) { freelist_offset = k * size_of (type_of (h.refs j)); nfree = n }

  -- The first block of a free list is taken: the rest of the list is free.
  pub take_block_lem :
      (i : ℕ) (is : List ℕ)
      → Frees (p.load h.pages) (h.refs j) (i ∷ is)
      → (pr : Pageref) × (take_block p j h
          ≡ done (block (h.refs j) i, record h { refs = put h.refs j pr }))
        × (pr.pageaddr_and_blocktype ≡ (h.refs j).pageaddr_and_blocktype)
        × Frees (p.load h.pages) pr is
  unfolding take_block
  take_block_lem i [] f =
      let lt : i < blocks_in (h.refs j) = f.inside i (ground arith) in
      let (off, low) = start_offset f i lt f.chain.0 in
      let fits = block_bound f i lt in
      let fl : word (page_of (h.refs j) + (h.refs j).freelist_offset) ≡ block (h.refs j) i =
        omega (arith, off, fits, f.top) in
      let last : (p.load h.pages (block (h.refs j) i) == 0) ≡ true = (==_iff _ _).1 f.chain.1 in
      let left : u16 ((h.refs j).nfree + 2 ^ 16 - 1) ≡ 0 = omega (arith, f.count) in
      (
        last_ref,
        rw (lt→ltb _ _ low, fl, last, left) refl,
        refl,
        record {
          base = f.base;
          top = f.top;
          kind = f.kind;
          chain = refl;
          count = refl;
          inside = λ x m. cc;
          apart = tt;
        },
      )
  take_block_lem i (k ∷ ks) f =
      let lt : i < blocks_in (h.refs j) = f.inside i (ground arith) in
      let lt_next : k < blocks_in (h.refs j) = f.inside k (ground arith) in
      let (off, low) = start_offset f i lt f.chain.0 in
      let fits = block_bound f i lt in
      let next_fits = block_bound f k lt_next in
      let size = page-IsSize_in f in
      let fl : word (page_of (h.refs j) + (h.refs j).freelist_offset) ≡ block (h.refs j) i =
        omega (arith, off, fits, f.top) in
      let next : p.load h.pages (block (h.refs j) i) ≡ block (h.refs j) k = f.chain.1.0 in
      let more : (block (h.refs j) k == 0) ≡ false = ground (arith, f.base) in
      let left : u16 ((h.refs j).nfree + 2 ^ 16 - 1) ≡ suc (length ks) =
        omega (arith, f.count, length_few f) in
      let offset : word (block (h.refs j) k + 2 ^ 32 - page_of (h.refs j))
          ≡ k * size_of (type_of (h.refs j)) =
        omega (arith, next_fits, f.top) in
      let inside : k * size_of (type_of (h.refs j)) < page_size =
        omega (arith, next_fits, size.low) in
      let short : u16 (k * size_of (type_of (h.refs j))) ≡ k * size_of (type_of (h.refs j)) =
        omega arith in
      (
        next_ref k (suc (length ks)),
        rw
            (
              lt→ltb _ _ low,
              fl,
              next,
              more,
              left,
              lt→ltb 0 (suc (length ks)) (omega arith),
              offset,
              lt→ltb _ _ inside,
              short,
            )
            refl,
        refl,
        record {
          base = f.base;
          top = f.top;
          kind = f.kind;
          chain = (ground (arith, inside), f.chain.1.1);
          count = refl;
          inside = λ x m. f.inside x (ground (arith, m));
          apart = f.apart.1;
        },
      )

-- What one more free block leaves of a record
abbrev pub freed_ref : Pageref → ℕ → ℕ → Pageref
freed_ref pr i n = record pr { freelist_offset = i * size_of (type_of pr); nfree = n }

-- A block that was in use is linked before the others.
pub freed-Frees :
    {load load' : ℕ → ℕ} {pr : Pageref} {is : List ℕ} (i : ℕ)
    → Frees load pr is
    → i < blocks_in pr
    → member i is ≡ false
    → load' (block pr i) ≡ start_of pr
    → ((k : ℕ) → k < blocks_in pr → k ≢ i → load' (block pr k) ≡ load (block pr k))
    → Frees load' (freed_ref pr i (suc (length is))) (i ∷ is)
freed-Frees {load} {load'} {pr} {is} i f lt out linked same =
    let fits = block_bound f i lt in
    let size = page-IsSize_in f in
    let inside : i * size_of (type_of pr) < page_size = omega (arith, fits, size.low) in
    record {
      base = f.base;
      top = f.top;
      kind = f.kind;
      chain = (
        ground (arith, inside),
        subst (λ a. Chain load' (page_of pr) (size_of (type_of pr)) a is) (sym linked)
            (Chain-frame load load' (page_of pr) (size_of (type_of pr)) (start_of pr) is
              (λ k m. same k (f.inside k m) (λ e. cc (sym m ∙ ap (λ x. member x is) e ∙ out)))
              f.chain),
      );
      count = refl;
      inside = λ k m. elim (ℕ_discrete k i) [
        | yes here ↦ omega arith
        | no other ↦ f.inside k (ground (arith, m, other))
      ];
      apart = (out, f.apart);
    }

-- The numbers below `n`, the largest first
abbrev pub down : ℕ → List ℕ
down zero = []
down (suc n) = n ∷ down n

pub member-down : (n i : ℕ) → member i (down n) ≡ ltb i n
member-down zero i = ground arith
member-down (suc n) i = ground (arith, member-down n i)

length-down : (n : ℕ) → length (down n) ≡ n
length-down zero = refl
length-down (suc n) = ap suc (length-down n)

down-NoRepeat : (n : ℕ) → NoRepeat (down n)
down-NoRepeat zero = tt
down-NoRepeat (suc n) = (member-down n n ∙ ground arith, down-NoRepeat n)

-- A page that is linked from its last block to its first has all its blocks free.
module _ (load : ℕ → ℕ) (page size : ℕ) (first : load page ≡ 0) where
  down-Chain :
      (n : ℕ)
      → ((k : ℕ) → k < n → load (page + suc k * size) ≡ page + k * size)
      → Chain load page size (page + n * size) (down (suc n))
  down-Chain zero linked = (refl, ap load (omega arith) ∙ first)
  down-Chain (suc n) linked = (
    refl,
    subst (λ a. Chain load page size a (down (suc n))) (sym (linked n (omega arith)))
        (down-Chain n (λ k lt. linked k (omega arith))),
  )

pub fresh-Frees :
    (load : ℕ → ℕ) (pr : Pageref) (n : ℕ)
    → 0 < page_of pr
    → page_of pr + page_size < 2 ^ 32
    → type_of pr < nsizes
    → blocks_in pr ≡ suc n
    → pr.freelist_offset ≡ n * size_of (type_of pr)
    → pr.nfree ≡ suc n
    → load (page_of pr) ≡ 0
    → ((k : ℕ) → k < n → load (block pr (suc k)) ≡ block pr k)
    → Frees load pr (down (suc n))
fresh-Frees load pr n base top kind many off all first linked =
    let size = size_of-IsSize (type_of pr) kind in
    let last = block_inside (size_of (type_of pr)) size n (omega (arith, many)) in
    let start : start_of pr ≡ block pr n = ground (arith, off, last, size.low) in
    record {
      base = base;
      top = top;
      kind = kind;
      chain =
          subst (λ a. Chain load (page_of pr) (size_of (type_of pr)) a (down (suc n))) (sym start)
            (down-Chain load (page_of pr) (size_of (type_of pr)) first n linked);
      count = all ∙ sym (length-down (suc n));
      inside = λ i m. omega (arith, many, ltb→lt i (suc n) (sym (member-down (suc n) i) ∙ m));
      apart = down-NoRepeat (suc n);
    }
