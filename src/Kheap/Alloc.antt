-- ===== src/Kheap/Alloc.antt =====
-- kern/lib/kheap.c: what subpage_kmalloc gives.
use mathlib.Core.Path.{subst}
use operating_system.Prelude.{
  ℕ, ◌+◌, ◌-◌, ◌*◌, ◌%◌, page_size, ◌≤◌, ◌<◌, ◌≡◌, ◌⊎◌, inl, inr, refl, sym, ap, ◌∙◌, true, false,
  not, ◌&&◌, List, arith, ◌==◌, ==_iff, Bool-cases, done, Option, none, some,
}
use operating_system.Kheap.Source.{PageSource, IsPageSource}
use operating_system.Kheap.Pagerefs.{allocpageref, freepageref}
use operating_system.Kheap.Records.{IsInuse, in_use, TookRef, allocpageref_lem, freepageref_lem}
use operating_system.Kheap.Defs.{
  Pageref, Heap, size_of, nsizes, type_of, take_block, find_space, blocktype, add_page, page_for,
  new_page, take_new, subpage_kmalloc,
}
use operating_system.Kheap.Freelist.{member, block}
use operating_system.Kheap.Sizes.{blocktype_lem}
use operating_system.Kheap.Invariant.{IsHeap, InBlock, Gave, take_block-Gave, find_space_lem}
use operating_system.Kheap.Filled.{add_page-Filled}
use operating_system.Kheap.NewPage.{Grew, grown-Grew}

pos_test : (a : ℕ) → 0 < a → (a == 0) ≡ false
pos_test a h = ground arith

-- The records in use, after one was taken and given back
given_back :
    (inuse inuse1 inuse2 : List ℕ) (j k : ℕ)
    → TookRef inuse inuse1 j
    → ((l : ℕ) → in_use inuse2 l ≡ (not (l == j) && in_use inuse1 l))
    → in_use inuse k ≡ true
    → in_use inuse2 k ≡ true
given_back inuse inuse1 inuse2 j k took marks used = elim (Bool-cases (k == j)) [
  | inl same ↦ cc (sym used ∙ ap (in_use inuse) ((==_iff k j).0 same) ∙ took.1)
  | inr other ↦ marks k ∙ ap (λ t. not (k == j) && t) (took.2 k) ∙ (rw (other, used) refl)
]

-- The steps of `new_page`
module _ (p : PageSource) (b : ℕ) (h : Heap p.State) where
  new_page-none :
      (inuse : List ℕ)
      → allocpageref h.inuse ≡ done (none, inuse)
      → new_page p b h ≡ done (none, record h { inuse = inuse })
  unfolding new_page
  new_page-none inuse e = rw (new_page, e) refl

  new_page-some :
      (j : ℕ) (inuse : List ℕ)
      → allocpageref h.inuse ≡ done (some j, inuse)
      → new_page p b h ≡ page_for p b j (record h { inuse = inuse })
  unfolding new_page
  new_page-some j inuse e = rw (new_page, e) refl

  page_for-none :
      (j : ℕ) (s : p.State) (inuse : List ℕ)
      → p.alloc 1 h.pages ≡ done (0, s)
      → freepageref j h.inuse ≡ done inuse
      → page_for p b j h ≡ done (none, record h { pages = s; inuse = inuse })
  unfolding page_for
  page_for-none j s inuse e back = rw (page_for, e, back) refl

  page_for-some :
      (j a : ℕ) (s : p.State) (h' : Heap p.State)
      → p.alloc 1 h.pages ≡ done (a, s)
      → 0 < a
      → add_page p j a b (record h { pages = s }) ≡ done h'
      → page_for p b j h ≡ done (some j, h')
  unfolding page_for
  page_for-some j a s h' e some_page added = rw (page_for, e, pos_test a some_page, added) refl

module _ {p : PageSource} (laws : IsPageSource p) where
  with_inuse :
      (h : Heap p.State) (free : ℕ → List ℕ) (inuse : List ℕ)
      → IsHeap laws h free
      → IsInuse inuse
      → ((k : ℕ) → member k h.allbase ≡ true → in_use inuse k ≡ true)
      → IsHeap laws (record h { inuse = inuse }) free
  with_inuse h free inuse ok recs used = record {
    valid = ok.valid;
    records = recs;
    listed = λ k m.
        let old = ok.listed k m in
        record { small = old.small; used = used k m; frees = old.frees; owned = old.owned };
    apart = ok.apart;
    sized = ok.sized;
    once = ok.once;
    once_sized = ok.once_sized;
  }

  -- No block was given: the pages on the lists and memory are as they were.
  pub record Same (h h' : Heap p.State) (free : ℕ → List ℕ) : Type 0 where
    pub heap : IsHeap laws h' free
    pub pages : h'.pages ≡ h.pages
    pub refs : h'.refs ≡ h.refs
    pub allbase : h'.allbase ≡ h.allbase

  module _ (b : ℕ) (kind : b < nsizes) (h : Heap p.State) (free : ℕ → List ℕ)
      (ok : IsHeap laws h free) where
    abbrev NewPage : Type 0
    NewPage =
        ((h' : Heap p.State) × (new_page p b h ≡ done (none, h')) × Same h h' free)
        ⊎ ((j : ℕ) × (h' : Heap p.State) × (free' : ℕ → List ℕ) × (new_page p b h
              ≡ done (some j, h'))
            × Grew laws h h' free free' b j)

    -- A record was found, and a page for it or not.
    page_for-NewPage :
        (j : ℕ) (inuse : List ℕ)
        → allocpageref h.inuse ≡ done (some j, inuse)
        → IsInuse inuse
        → TookRef h.inuse inuse j
        → NewPage
    page_for-NewPage j inuse e recs took =
        let (a, s, got, valid, owned, cases) = laws.alloc_lem h.pages ok.valid in
        elim cases [
          | inl (zero_page, same) ↦
              let (inuse', back, recs', marks) =
                freepageref_lem j inuse recs took.0 (took.2 j ∙ ground arith) in
              let used : (k : ℕ) → member k h.allbase ≡ true → in_use inuse' k ≡ true =
                λ k m. given_back h.inuse inuse inuse' j k took marks (ok.listed k m).used in
              let none_left : p.alloc 1 h.pages ≡ done (0, s) =
                got ∙ ap (λ t. done (t, s)) zero_page in
              inl (
                record h { pages = s; inuse = inuse' },
                new_page-some p b h j inuse e
                    ∙ page_for-none p b (record h { inuse = inuse }) j s inuse' none_left back,
                record {
                  heap =
                      subst (λ t. IsHeap laws (record h { pages = t; inuse = inuse' }) free)
                        (sym same) (with_inuse h free inuse' ok recs' used);
                  pages = same;
                  refs = refl;
                  allbase = refl;
                },
              )
          | inr given ↦
              let h1 : Heap p.State = record h { inuse = inuse; pages = s } in
              let (s', f) =
                add_page-Filled laws h1 j a b given.some_page given.aligned given.below kind
                  valid in
              inr (
                j,
                _,
                _,
                new_page-some p b h j inuse e
                    ∙ page_for-some p b (record h { inuse = inuse }) j a s _ got given.some_page
                        f.made,
                grown-Grew laws h free ok s s' a given f.others inuse j b recs took.0 took.1 took.2
                    f.valid kind f.owned owned f.frees,
              )
        ]

    new_page-NewPage : NewPage
    new_page-NewPage = elim (allocpageref_lem h.inuse ok.records) [
      | inl nothing ↦ inl (
        h,
        new_page-none p b h h.inuse nothing,
        record { heap = ok; pages = refl; refs = refl; allbase = refl },
      )
      | inr (j, inuse, e, recs, took) ↦ page_for-NewPage j inuse e recs took
    ]

  -- What `subpage_kmalloc` for `sz` bytes gives: nothing, and no page or word changes; or a block that was
  -- not live, with room for the bytes, while the live blocks stay live, with what they hold.
  pub data Answer (sz : ℕ) (h : Heap p.State) (free : ℕ → List ℕ) : ℕ → Heap p.State → Type 0 where
    refused : {a : ℕ} {h' : Heap p.State} → a ≡ 0 → Same h h' free → Answer sz h free a h'
    gave :
        {a : ℕ} {h' : Heap p.State} (j i : ℕ) (free' : ℕ → List ℕ)
        → a ≡ block (h'.refs j) i
        → sz ≤ size_of (type_of (h'.refs j))
        → Gave laws h h' free free' j i
        → Answer sz h free a h'

  -- The words of a block of a record that has its page still
  pub InBlock-place :
      (r r' : Pageref) (l x : ℕ)
      → r'.pageaddr_and_blocktype ≡ r.pageaddr_and_blocktype
      → InBlock laws r l x
      → InBlock laws r' l x
  InBlock-place r r' l x same inside =
      subst
        (λ a.
          (a - a % page_size + l * size_of (a % page_size) ≤ x)
          × (x < a - a % page_size + l * size_of (a % page_size) + size_of (a % page_size)))
        (sym same) inside

  Grew-Gave :
      {h h1 h2 : Heap p.State} {free free1 free2 : ℕ → List ℕ} {b j i : ℕ}
      → Grew laws h h1 free free1 b j
      → Gave laws h1 h2 free1 free2 j i
      → Gave laws h h2 free free2 j i
  Grew-Gave {h} {h1} g t = record {
    heap = t.heap;
    live = t.live;
    fresh = λ v. cc (sym v.page ∙ g.off);
    kept = λ k l v. t.kept k l (g.kept k l v);
    only = λ k l v. elim (t.only k l v) [ inl it ↦ inl it | inr old ↦ inr (g.only k l old) ];
    place = λ k m. t.place k (g.still k m) ∙ g.place k m;
    words = λ k l x v inside.
        t.words k l x (g.kept k l v)
          (InBlock-place (h.refs k) (h1.refs k) l x (g.place k v.page) inside)
        ∙ g.words k l x v inside;
  }

  -- A page with a free block of the type, and the block that is taken from it
  take_block-Answer :
      (sz b : ℕ) (h : Heap p.State) (free : ℕ → List ℕ) (j : ℕ)
      → IsHeap laws h free
      → member j h.allbase ≡ true
      → 0 < (h.refs j).nfree
      → type_of (h.refs j) ≡ b
      → sz ≤ size_of b
      → (i a : ℕ) × (h' : Heap p.State) × (free' : ℕ → List ℕ) × (take_block p j h ≡ done (a, h'))
        × (a ≡ block (h'.refs j) i)
        × (sz ≤ size_of (type_of (h'.refs j)))
        × Gave laws h h' free free' j i
  take_block-Answer sz b h free j ok on some_free kind room =
      let (i, h', free', e, t) = take_block-Gave laws h free j ok on some_free in
      let place = t.place j on in
      (
        i,
        block (h.refs j) i,
        h',
        free',
        e,
        ap (λ a. a - a % page_size + i * size_of (a % page_size)) (sym place),
        subst (λ a. sz ≤ size_of (a % page_size)) (sym place)
            (subst (λ t. sz ≤ size_of t) (sym kind) room),
        t,
      )

  -- The steps of `subpage_kmalloc`
  module _ (sz b : ℕ) (h : Heap p.State) (e : blocktype sz ≡ done b) where
    kmalloc_old :
        (j : ℕ)
        → find_space p b (h.sizebases b) h.refs ≡ done (some j)
        → subpage_kmalloc p sz h ≡ take_block p j h
    unfolding subpage_kmalloc
    kmalloc_old j found = rw (subpage_kmalloc, e, found) refl

    kmalloc_new :
        (r : Option ℕ) (h' : Heap p.State)
        → find_space p b (h.sizebases b) h.refs ≡ done none
        → new_page p b h ≡ done (r, h')
        → subpage_kmalloc p sz h ≡ take_new p (r, h')
    unfolding subpage_kmalloc
    kmalloc_new r h' nothing made = rw (subpage_kmalloc, e, nothing, made) refl

  take_new_lem :
      (j : ℕ) (h : Heap p.State)
      → (take_new p (none, h) ≡ done (0, h)) × (take_new p (some j, h) ≡ take_block p j h)
  unfolding take_new
  take_new_lem j h = (refl, refl)

  -- `subpage_kmalloc`, for 2048 bytes or fewer, in a heap that is in order: it never fails an assertion,
  -- and the heap stays in order. It gives NULL, and then no page of the heap and no word changes; or the
  -- address of a block with room for the bytes that was not live and now is, while every live block stays
  -- live, in its place and with what it holds, and no other becomes live.
  pub subpage_kmalloc-Answer :
      (sz : ℕ) (h : Heap p.State) (free : ℕ → List ℕ)
      → sz ≤ 2048
      → IsHeap laws h free
      → (a : ℕ) × (h' : Heap p.State) × (subpage_kmalloc p sz h ≡ done (a, h'))
        × Answer sz h free a h'
  subpage_kmalloc-Answer sz h free small ok =
      let (b, e, kind, room, first) = blocktype_lem sz small in
      elim (find_space_lem p b (h.sizebases b) h.refs (λ j m. (ok.sized b j m).1)) [
        | inr (j, found, m, some_free) ↦
            let (i, a, h', free', e', place, fits, t) =
              take_block-Answer sz b h free j ok (ok.sized b j m).0 some_free (ok.sized b j m).1
                room in
            (a, h', kmalloc_old sz b h e j found ∙ e', gave j i free' place fits t)
        | inl nothing ↦ elim (new_page-NewPage b kind h free ok) [
          | inl (h', made, same) ↦ (
            0,
            h',
            kmalloc_new sz b h e none h' nothing made ∙ (take_new_lem 0 h').0,
            refused refl same,
          )
          | inr (j, h1, free1, made, g) ↦
              let (i, a, h', free', e', place, fits, t) =
                take_block-Answer sz b h1 free1 j g.heap g.on g.some_free g.kind room in
              (
                a,
                h',
                kmalloc_new sz b h e (some j) h1 nothing made ∙ (take_new_lem j h1).1 ∙ e',
                gave j i free' place fits (Grew-Gave g t),
              )
        ]
      ]
