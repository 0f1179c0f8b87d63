-- ===== src/Kheap/Tests.antt =====
-- The heap at a core map of two pages, one of which holds two blocks of 2048 bytes.
use operating_system.Prelude.{
  ◌≤◌, ℕ, zero, suc, ◌+◌, ◌*◌, ◌^◌, ◌<◌, ◌≡◌, ◌⊎◌, inl, inr, refl, sym, ap, ◌∙◌, Bool-cases, ==_iff,
  true, false, List, [], ◌∷◌, none, some, arith, get_elem?, if◌then◌else◌, ◌==◌, done, ◌>>=◌, kseg0,
}
use operating_system.Coremap.Defs.{Entry, Vm, alloc_kpages, free_kpages}
use operating_system.Kheap.Source.{IsPageSource}
use operating_system.Kheap.Pagerefs.{allocpageref, freepageref}
use operating_system.Kheap.Defs.{Heap, size_of, blocktype, subpage_kmalloc, kmalloc, kfree}
use operating_system.Kheap.Records.{IsInuse, in_use}
use operating_system.Kheap.Freelist.{member, NoRepeat, Frees, block}
use operating_system.Kheap.Invariant.{IsHeap, Live, InBlock}
use operating_system.Kheap.Alloc.{Answer, subpage_kmalloc-Answer}
use operating_system.Kheap.Release.{Took}
use operating_system.Kheap.Free.{kfree-Took}
use operating_system.Kheap.Pair.{kmalloc_disjoint, SameLive, kfree-kmalloc}
use operating_system.Kheap.Whole.{IsWhole, kmalloc-IsWhole}
use operating_system.Kheap.Machine.{
  machine, IsReady, IsOwned, machine-Valid, machine-Owned, machine-IsPageSource,
}

abbrev entry : ℕ → ℕ → Entry
entry pa state = record { pa = pa; state = state; follower = 0; york = b'k'; thread_as = none }

abbrev two_pages : Vm
two_pages = record {
  booted = true;
  firstpaddr = 0x80000;
  lastpaddr = 0x80000;
  coremap = entry 0x5000 1 ∷ entry 0x6000 1 ∷ entry 0x7000 0 ∷ [];
  coremapsize = 3;
  ram = λ a. 0;
}

two_pages-IsReady : IsReady two_pages
two_pages-IsReady = record {
  map = record {
    up = refl;
    covered = omega arith;
    distinct = λ i j e f p q g h same. omega (arith, place i e p g, place j f q h);
    reachable = λ i e lt at. let pa = place i e lt at in (omega arith, omega arith, omega arith);
    idle = idle_of;
  };
  low = λ i e lt at. omega (arith, place i e lt at);
}
  where
    place :
        (i : ℕ) (e : Entry)
        → i < 3
        → get_elem? two_pages.coremap i ≡ some e
        → e.pa ≡ 0x5000 + i * 0x1000
    place zero e lt at = ground arith
    place (suc zero) e lt at = ground arith
    place (suc (suc zero)) e lt at = ground arith
    place (suc (suc (suc i))) e lt at = absurd (omega arith)

    idle_of :
        (i : ℕ) (e : Entry)
        → i < 3
        → get_elem? two_pages.coremap i ≡ some e
        → e.state ≡ 0
        → e.follower ≡ 0
    idle_of zero e lt at = ground arith
    idle_of (suc zero) e lt at = ground arith
    idle_of (suc (suc zero)) e lt at = ground arith
    idle_of (suc (suc (suc i))) e lt at = absurd (omega arith)

entry-IsOwned :
    (i pa : ℕ)
    → i < 3
    → get_elem? two_pages.coremap i ≡ some (entry pa 1)
    → IsOwned two_pages (pa + kseg0)
entry-IsOwned i pa lt at = record {
  index = i;
  entry = entry pa 1;
  inside = lt;
  found = at;
  address = refl;
  used = refl;
  alone = refl;
}

abbrev laws : IsPageSource (machine none)
laws = machine-IsPageSource none

-- The page record 0 has the blocks of the page at 0x80005000; its second block is free.
abbrev half_full : Heap Vm
half_full = record {
  pages = two_pages;
  refs = λ j. record { pageaddr_and_blocktype = 0x80005007; freelist_offset = 2048; nfree = 1 };
  inuse = 1 ∷ 0 ∷ 0 ∷ 0 ∷ 0 ∷ 0 ∷ 0 ∷ 0 ∷ [];
  sizebases = λ b. if b == 7 then 0 ∷ [] else [];
  allbase = 0 ∷ [];
}

abbrev free_blocks : ℕ → List ℕ
free_blocks j = 1 ∷ []

half_full-IsInuse : IsInuse half_full.inuse
half_full-IsInuse = record { extent = refl; words = words_of }
  where
    words_of : (i w : ℕ) → get_elem? half_full.inuse i ≡ some w → w < 2 ^ 32
    words_of zero w at = ground arith
    words_of (suc zero) w at = ground arith
    words_of (suc (suc zero)) w at = ground arith
    words_of (suc (suc (suc zero))) w at = ground arith
    words_of (suc (suc (suc (suc zero)))) w at = ground arith
    words_of (suc (suc (suc (suc (suc zero))))) w at = ground arith
    words_of (suc (suc (suc (suc (suc (suc zero)))))) w at = ground arith
    words_of (suc (suc (suc (suc (suc (suc (suc zero))))))) w at = ground arith
    words_of (suc (suc (suc (suc (suc (suc (suc (suc i)))))))) w at = cc

half_full-Frees : Frees (λ x. 0) (half_full.refs 0) (1 ∷ [])
unfolding size_of
half_full-Frees = record {
  base = omega arith;
  top = omega arith;
  kind = omega arith;
  chain = (refl, refl);
  count = refl;
  inside = λ i m. let one : i ≡ 1 = ground (arith, m) in omega (arith, one);
  apart = (refl, tt);
}

half_full-IsHeap : IsHeap laws half_full free_blocks
half_full-IsHeap = record {
  valid = machine-Valid none two_pages two_pages-IsReady;
  records = half_full-IsInuse;
  listed = λ j m.
      let here : j ≡ 0 = ground (arith, m) in
      record {
        small = omega (arith, here);
        used = ap (in_use half_full.inuse) here;
        frees = half_full-Frees;
        owned = machine-Owned none two_pages 0x80005000 (entry-IsOwned 0 0x5000 (omega arith) refl);
      };
  apart = λ j k m n e.
      let here : j ≡ 0 = ground (arith, m) in let there : k ≡ 0 = ground (arith, n) in omega arith;
  sized = λ b j m. sized_of b j (Bool-cases (b == 7)) m;
  once = (refl, tt);
  once_sized = λ b. once_of b (Bool-cases (b == 7));
}
  where
    sized_of :
        (b j : ℕ)
        → ((b == 7) ≡ true) ⊎ ((b == 7) ≡ false)
        → member j (if b == 7 then 0 ∷ [] else []) ≡ true
        → (member j (0 ∷ []) ≡ true) × (7 ≡ b)
    sized_of b j (inl here) m =
        (sym (ap (λ t. member j (if t then 0 ∷ [] else [])) here) ∙ m, sym ((==_iff b 7).0 here))
    sized_of b j (inr there) m = cc (sym m ∙ ap (λ t. member j (if t then 0 ∷ [] else [])) there)

    once_of :
        (b : ℕ) → ((b == 7) ≡ true) ⊎ ((b == 7) ≡ false) → NoRepeat (if b == 7 then 0 ∷ [] else [])
    once_of b (inl here) = rw here (refl, tt)
    once_of b (inr there) = rw there tt

-- The block at 0x80005000
first_block-Live : Live laws half_full free_blocks 0 0
unfolding size_of
first_block-Live = record { page = refl; number = omega arith; taken = refl }

subpage_kmalloc-Answer_example :
    (a : ℕ) × (h' : Heap Vm) × (subpage_kmalloc (machine none) 100 half_full ≡ done (a, h'))
    × Answer laws 100 half_full free_blocks a h'
subpage_kmalloc-Answer_example =
    subpage_kmalloc-Answer laws 100 half_full free_blocks (omega arith) half_full-IsHeap

kfree-Took_example :
    (h' : Heap Vm) × (free' : ℕ → List ℕ) × (kfree
        (machine none)
        (block (half_full.refs 0) 0)
        half_full
      ≡ done h')
    × Took laws half_full h' free_blocks free' 0 0
kfree-Took_example = kfree-Took laws half_full free_blocks half_full-IsHeap 0 0 first_block-Live

kmalloc_disjoint_example :
    (a : ℕ) × (h' : Heap Vm) × (kmalloc (machine none) 100 half_full ≡ done (a, h'))
    × ((a ≡ 0)
        ⊎ ((k l x : ℕ)
            → Live laws half_full free_blocks k l
            → InBlock laws (half_full.refs k) l x
            → (a ≤ x) × (x < a + 100)
            → ⊥))
kmalloc_disjoint_example =
    kmalloc_disjoint laws 100 half_full free_blocks (omega arith) half_full-IsHeap

kfree-kmalloc_example :
    (a : ℕ) × (h1 h2 : Heap Vm) × (free2 : ℕ → List ℕ) × (kmalloc (machine none) 100 half_full
      ≡ done (a, h1))
    × (kfree (machine none) a h1 ≡ done h2)
    × ((a ≡ 0) ⊎ SameLive laws half_full h2 free_blocks free2)
kfree-kmalloc_example = kfree-kmalloc laws 100 half_full free_blocks (omega arith) half_full-IsHeap

kmalloc-IsWhole_example :
    (a : ℕ) × (h' : Heap Vm) × (kmalloc (machine none) 3000 half_full ≡ done (a, h'))
    × SameLive laws half_full h' free_blocks free_blocks
    × ((a ≡ 0) ⊎ IsWhole laws h' a)
kmalloc-IsWhole_example =
    kmalloc-IsWhole laws half_full free_blocks half_full-IsHeap 3000 (omega arith) (omega arith)

-- 100 bytes come from a new page, whose last block of 128 bytes is at 0x80007f80.
kmalloc_run : (kmalloc (machine none) 100 half_full >>= λ (a, h). done a) ≡ done 0x80007f80
unfolding kmalloc blocktype allocpageref alloc_kpages
kmalloc_run = refl

-- The other block of the page comes back, and the page with it.
kfree_run : (kfree (machine none) 0x80005000 half_full >>= λ h. done h.allbase) ≡ done []
unfolding kfree freepageref free_kpages
kfree_run = refl
