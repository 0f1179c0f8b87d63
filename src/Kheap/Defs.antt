-- ===== src/Kheap/Defs.antt =====
-- kern/lib/kheap.c, the subpage allocator. It runs with interrupts off, so nothing comes between. The
-- lists linked by `next_samesize` and `next_all` are lists of indices into `pagerefs`; the free blocks of
-- a page are linked by their first words, in memory. Addresses are 32-bit words, and 0 is NULL.
use operating_system.Prelude.{
  ℕ, zero, suc, ◌+◌, ◌-◌, ◌*◌, ◌/◌, ◌%◌, ◌^◌, Bool, true, false, not, ◌&&◌, Option, none, some,
  List, [], ◌∷◌, ltb, leb, ◌==◌, if◌then◌else◌, get_elem?, Outcome, done, halt, ◌>>=◌, ◌>>◌, assert,
  page_size, page_frame, word,
}
use operating_system.Kheap.Pagerefs.{allocpageref, freepageref}
use operating_system.Kheap.Source.{PageSource}

abbrev pub sizes : List ℕ
sizes = 16 ∷ 32 ∷ 64 ∷ 128 ∷ 256 ∷ 512 ∷ 1024 ∷ 2048 ∷ []

abbrev pub nsizes : ℕ
nsizes = 8

abbrev pub largest_subpage_size : ℕ
largest_subpage_size = 2048

abbrev pub invalid_offset : ℕ
invalid_offset = 0xffff

abbrev pub u16 : ℕ → ℕ
u16 n = n % 2 ^ 16

-- `sizes[blktype]`
unfoldable pub size_of : ℕ → ℕ
size_of blktype = elim (get_elem? sizes blktype) [ none ↦ 0 | some s ↦ s ]

-- `struct pageref`, less its two links
pub record Pageref : Type 0 where
  pub pageaddr_and_blocktype : ℕ
  pub freelist_offset : ℕ
  pub nfree : ℕ

-- `PR_PAGEADDR`, `PR_BLOCKTYPE` and `MKPAB`
abbrev pub page_of : Pageref → ℕ
page_of pr = page_frame pr.pageaddr_and_blocktype

abbrev pub type_of : Pageref → ℕ
type_of pr = pr.pageaddr_and_blocktype % page_size

abbrev pub mkpab : ℕ → ℕ → ℕ
mkpab pa blk = page_frame pa + blk % page_size

-- The globals: memory and its pages, `pagerefs`, `pagerefs_inuse`, `sizebases` and `allbase`.
pub record Heap (S : Type 0) : Type 0 where
  pub pages : S
  pub refs : ℕ → Pageref
  pub inuse : List ℕ
  pub sizebases : ℕ → List ℕ
  pub allbase : List ℕ

-- The loop of `blocktype` from the index `i` on; past the last size it panics.
unfoldable pub find_size : List ℕ → ℕ → ℕ → Outcome ℕ
find_size [] i sz = halt
find_size (s ∷ ss) i sz = let later = find_size ss (i + 1) sz in if leb sz s then done i else later

unfoldable pub blocktype : ℕ → Outcome ℕ
unfolding find_size
blocktype sz = find_size sizes 0 sz

-- One round of the loop of `remove_lists`
unfoldable pub remove_first : ℕ → List ℕ → List ℕ
remove_first j [] = []
remove_first j (k ∷ ks) = if k == j then ks else k ∷ remove_first j ks

abbrev pub put {ℓ} : {A : Type ℓ} → (ℕ → A) → ℕ → A → ℕ → A
put f j v = λ k. if k == j then v else f k

module _ (p : PageSource) where
  -- `doalloc:` on the page record `j`
  unfoldable pub take_block : ℕ → Heap p.State → Outcome (ℕ × Heap p.State)
  take_block j h =
      let pr = h.refs j in
      let prpage = page_of pr in
      let fl = word (prpage + pr.freelist_offset) in
      let next = p.load h.pages fl in
      let nfree = u16 (pr.nfree + 2 ^ 16 - 1) in
      let offset = word (next + 2 ^ 32 - prpage) in
      let more : Pageref = record pr { freelist_offset = u16 offset; nfree = nfree } in
      let last : Pageref = record pr { freelist_offset = invalid_offset; nfree = nfree } in
      assert (ltb pr.freelist_offset page_size)
      >> (if next == 0
          then assert (nfree == 0) >> done (fl, record h { refs = put h.refs j last })
          else assert (ltb 0 nfree)
            >> (assert (ltb offset page_size) >> done (fl, record h { refs = put h.refs j more })))

  -- The search of `subpage_kmalloc` for a page of the type with a free block
  unfoldable pub find_space : ℕ → List ℕ → (ℕ → Pageref) → Outcome (Option ℕ)
  find_space blktype [] refs = done none
  find_space blktype (j ∷ js) refs =
      let later = find_space blktype js refs in
      assert (type_of (refs j) == blktype)
      >> (if ltb 0 (refs j).nfree then done (some j) else later)

  -- `for (i=1; i<pr->nfree; i++)` from `i` on, with `n` rounds left, and `fl`
  unfoldable pub link : ℕ → ℕ → ℕ → ℕ → ℕ → p.State → Outcome (ℕ × p.State)
  link zero i fla size fl s = done (fl, s)
  link (suc n) i fla size fl s =
      let here = word (fla + i * size) in
      let before = word (fla + (i - 1) * size) in
      assert (not (here == before)) >> link n (i + 1) fla size here (p.store here before s)

  -- A page that is filled with free blocks, and put on the two lists
  unfoldable pub add_page : ℕ → ℕ → ℕ → Heap p.State → Outcome (Heap p.State)
  unfolding link size_of
  add_page j prpage blktype h = do
    let size = size_of blktype
    let nfree = u16 (page_size / size)
    (fl, s) ← link (nfree - 1) 1 prpage size prpage (p.store prpage 0 h.pages)
    let offset = u16 (word (fl + 2 ^ 32 - prpage))
    assert (offset == (nfree - 1) * size)
    done (record h {
      pages = s;
      refs = put h.refs j (record {
        pageaddr_and_blocktype = mkpab prpage blktype;
        freelist_offset = offset;
        nfree = nfree;
      });
      sizebases = put h.sizebases blktype (j ∷ h.sizebases blktype);
      allbase = j ∷ h.allbase;
    })

  -- A page for the record `j`: out of memory, the record is given back.
  unfoldable pub page_for : ℕ → ℕ → Heap p.State → Outcome (Option ℕ × Heap p.State)
  unfolding add_page
  page_for blktype j h = p.alloc 1 h.pages >>= λ (prpage, s).
      let h1 : Heap p.State = record h { pages = s } in
      if prpage == 0
      then (freepageref j h1.inuse >>= λ inuse. done (none, record h1 { inuse = inuse }))
      else (add_page j prpage blktype h1 >>= λ h2. done (some j, h2))

  -- No page of the right size: a new one, with the record that it is kept in, or none.
  unfoldable pub new_page : ℕ → Heap p.State → Outcome (Option ℕ × Heap p.State)
  unfolding page_for
  new_page blktype h = allocpageref h.inuse >>= λ (r, inuse).
      let h1 : Heap p.State = record h { inuse = inuse } in
      elim r [ none ↦ done (none, h1) | some j ↦ page_for blktype j h1 ]

  -- `subpage_kmalloc`: 0 for NULL
  unfoldable pub take_new : Option ℕ × Heap p.State → Outcome (ℕ × Heap p.State)
  unfolding take_block
  take_new (none, h) = done (0, h)
  take_new (some j, h) = take_block j h

  unfoldable pub subpage_kmalloc : ℕ → Heap p.State → Outcome (ℕ × Heap p.State)
  unfolding find_space take_block new_page take_new
  subpage_kmalloc sz h = do
    blktype ← blocktype sz
    found ← find_space blktype (h.sizebases blktype) h.refs
    elim found [ some j ↦ take_block j h | none ↦ new_page blktype h >>= take_new ]

  -- `fill_deadbeef`, with `n` words left
  unfoldable pub fill_deadbeef : ℕ → ℕ → p.State → p.State
  fill_deadbeef zero ptr s = s
  fill_deadbeef (suc n) ptr s = fill_deadbeef n (word (ptr + 4)) (p.store ptr 0xdeadbeef s)

  -- The search of `subpage_kfree` for the page of the address
  unfoldable pub find_page : ℕ → List ℕ → (ℕ → Pageref) → Outcome (Option ℕ)
  find_page ptr [] refs = done none
  find_page ptr (j ∷ js) refs =
      let later = find_page ptr js refs in
      let page = page_of (refs j) in
      assert (ltb (type_of (refs j)) nsizes)
      >> (if leb page ptr && ltb ptr (word (page + page_size)) then done (some j) else later)

  -- The whole page is free: `remove_lists`, `free_kpages` and `freepageref`.
  unfoldable pub retire : ℕ → Heap p.State → Outcome (Heap p.State)
  unfolding remove_first
  retire j h = do
    let blktype = type_of (h.refs j)
    assert (ltb blktype nsizes)
    s ← p.free (page_of (h.refs j)) h.pages
    inuse ← freepageref j h.inuse
    done (record h {
      pages = s;
      inuse = inuse;
      sizebases = put h.sizebases blktype (remove_first j (h.sizebases blktype));
      allbase = remove_first j h.allbase;
    })

  -- The block at `ptr`, in the page `j`, goes to the head of the free list.
  unfoldable pub put_block : ℕ → ℕ → Heap p.State → Outcome (Heap p.State)
  unfolding fill_deadbeef retire size_of
  put_block ptr j h = do
    let pr = h.refs j
    let prpage = page_of pr
    let size = size_of (type_of pr)
    let offset = word (ptr + 2 ^ 32 - prpage)
    assert (ltb offset page_size && (offset % size == 0))
    let s1 = fill_deadbeef (size / 4) ptr h.pages
    let next =
        if pr.freelist_offset == invalid_offset then 0 else word (prpage + pr.freelist_offset)
    let s2 = p.store (word (prpage + offset)) next s1
    let nfree = u16 (pr.nfree + 1)
    let h1 : Heap p.State = record h {
      pages = s2;
      refs = put h.refs j (record pr { freelist_offset = u16 offset; nfree = nfree });
    }
    assert (leb nfree (page_size / size))
    if nfree == page_size / size then retire j h1 else done h1

  -- `subpage_kfree`: false for -1
  unfoldable pub subpage_kfree : ℕ → Heap p.State → Outcome (Bool × Heap p.State)
  unfolding find_page put_block
  subpage_kfree ptr h = do
    found ← find_page ptr h.allbase h.refs
    elim found [ none ↦ done (false, h) | some j ↦ do h' ← put_block ptr j h; done (true, h') ]

  unfoldable pub kmalloc : ℕ → Heap p.State → Outcome (ℕ × Heap p.State)
  unfolding subpage_kmalloc
  kmalloc sz h =
      let large =
        (p.alloc (word (sz + page_size - 1) / page_size) h.pages >>= λ (address, s).
        done (address, record h { pages = s })) in
      if leb largest_subpage_size sz then large else subpage_kmalloc sz h

  unfoldable pub kfree : ℕ → Heap p.State → Outcome (Heap p.State)
  unfolding subpage_kfree
  kfree ptr h =
      let not_ours = λ (h' : Heap p.State).
        assert (ptr % page_size == 0)
        >> (p.free ptr h'.pages >>= λ s. done (record h' { pages = s })) in
      let tried = (subpage_kfree ptr h >>= λ (found, h'). if found then done h' else not_ours h') in
      if ptr == 0 then done h else tried
