-- ===== src/Coremap/Pages.antt =====
-- kern/vm/vm.c: one page taken by `pmalloc` or `alloc_kpages(1)`, and given back.
use mathlib.Core.Path.{subst, subst₂, ap₂}
use native.Mathlib.Decide.{ℕ_discrete}
use operating_system.Prelude.{
  ℕ, zero, suc, ◌+◌, ◌%◌, ◌≤◌, ◌<◌, ◌≡◌, ◌≢◌, ◌⊎◌, inl, inr, refl, ap, sym, ◌∙◌, Option, none, some,
  List, arith, length, get_elem?, done, page_size, kseg0, paddr_to_kvaddr, kvaddr_to_paddr, modify,
  map_option, length-modify, get_elem?-modify_self, get_elem?-modify_ne, true, [], ◌∷◌, eq_of_some,
}
use operating_system.Coremap.Defs.{
  Entry, Vm, pa_at, first_free, claim, take_page, release, find_page, free_kpages,
}
use operating_system.Coremap.Search.{
  Distinct, NoneFree, FirstFree, first_free-FirstFree, find_page_hit,
}

-- The core map of a booted kernel: as many entries as it says, each for a page of its own that the
-- kernel can reach.
pub record IsValid (m : Vm) : Type 0 where
  pub up : m.booted ≡ true
  pub covered : m.coremapsize ≤ length m.coremap
  pub distinct : Distinct m.coremap m.coremapsize
  pub reachable :
      (i : ℕ) (e : Entry)
      → i < m.coremapsize
      → get_elem? m.coremap i ≡ some e
      → (0 < e.pa) × (e.pa + page_size ≤ kseg0) × (e.pa % page_size ≡ 0)
  pub idle :
      (i : ℕ) (e : Entry)
      → i < m.coremapsize
      → get_elem? m.coremap i ≡ some e
      → e.state ≡ 0
      → e.follower ≡ 0

-- A free entry counts no followers.
abbrev pub Idle : Entry → Type 0
Idle e = e.state ≡ 0 → e.follower ≡ 0

-- A change of entries that keeps each page where it is, and free entries without followers.
abbrev pub SamePages : List Entry → List Entry → Type 0
SamePages es fs =
    (j : ℕ) (f : Entry)
    → get_elem? fs j ≡ some f
    → (e : Entry) × (get_elem? es j ≡ some e) × (e.pa ≡ f.pa) × (Idle e → Idle f)

pub SamePages-IsValid :
    {m m' : Vm}
    → IsValid m
    → m'.booted ≡ m.booted
    → m'.coremapsize ≡ m.coremapsize
    → length m'.coremap ≡ length m.coremap
    → SamePages m.coremap m'.coremap
    → IsValid m'
SamePages-IsValid {m} {m'} v b s l same = record {
  up = b ∙ v.up;
  covered = omega arith;
  distinct = λ i j e f p q g h d.
      let (e', g', x, _) = same i e g in
      let (f', h', y, _) = same j f h in
      v.distinct i j e' f' (omega arith) (omega arith) g' h' (omega arith);
  reachable = λ i f p g.
      let (e, g', x, _) = same i f g in
      let (lo, hi, al) = v.reachable i e (omega arith) g' in
      (omega arith, omega arith, rw (← x) al);
  idle = λ i f p g. let (e, g', _, k) = same i f g in k (v.idle i e (omega arith) g');
}

pub SamePages-trans : (es fs gs : List Entry) → SamePages es fs → SamePages fs gs → SamePages es gs
SamePages-trans es fs gs h k j g at =
    let (f, at', x, p) = k j g at in
    let (e, at'', y, q) = h j f at' in (e, at'', y ∙ x, λ i. p (q i))

pub modify-SamePages :
    (es : List Entry) (i : ℕ) (f : Entry → Entry)
    → ((e : Entry) → (f e).pa ≡ e.pa)
    → ((e : Entry) → get_elem? es i ≡ some e → Idle e → Idle (f e))
    → SamePages es (modify es i f)
modify-SamePages [] i f keep idle j g at = cc
modify-SamePages (x ∷ xs) zero f keep idle zero g at =
    (x, refl, ground (arith, keep x), subst (λ z. Idle x → Idle z) (eq_of_some at) (idle x refl))
modify-SamePages (x ∷ xs) zero f keep idle (suc j) g at = (g, at, refl, λ k. k)
modify-SamePages (x ∷ xs) (suc i) f keep idle zero g at =
    (x, refl, ap (λ e. e.pa) (eq_of_some at), subst (λ z. Idle x → Idle z) (eq_of_some at) (λ k. k))
modify-SamePages (x ∷ xs) (suc i) f keep idle (suc j) g at =
    modify-SamePages xs i f keep idle j g at

-- What taking a page for `york` from `m` gives: the first free entry's page, cleared, with that
-- entry alone changed; or 0 and no change, where every entry is in use.
pub record Taken (york : ℕ) (cur : Option ℕ) (m : Vm) (addr : ℕ) (m' : Vm) (i : ℕ) (e : Entry)
    : Type 0 where
  pub found : get_elem? m.coremap i ≡ some e
  pub inside : i < m.coremapsize
  pub free : e.state ≡ 0
  pub first : NoneFree m.coremap 0 i
  pub address : addr ≡ e.pa + kseg0
  pub marked : get_elem? m'.coremap i ≡ some (record e { state = 1; york = york; thread_as = cur })
  pub others : (j : ℕ) → i ≢ j → get_elem? m'.coremap j ≡ get_elem? m.coremap j
  pub cleared : (a : ℕ) → e.pa ≤ a → a < e.pa + page_size → m'.ram a ≡ 0
  pub kept : (a : ℕ) → (a < e.pa) ⊎ (e.pa + page_size ≤ a) → m'.ram a ≡ m.ram a
  pub extent : m'.coremapsize ≡ m.coremapsize
  pub valid : IsValid m'

-- The page of a known entry.
pub pa_at-some : (es : List Entry) (i : ℕ) (e : Entry) → get_elem? es i ≡ some e → pa_at es i ≡ e.pa
pa_at-some es i e at = ground arith

claim-Taken :
    {m : Vm} (york : ℕ) (cur : Option ℕ) (i : ℕ) (e : Entry)
    → IsValid m
    → get_elem? m.coremap i ≡ some e
    → i < m.coremapsize
    → e.state ≡ 0
    → NoneFree m.coremap 0 i
    → Taken york cur m (paddr_to_kvaddr (pa_at m.coremap i)) (claim york cur i m) i e
unfolding claim
claim-Taken {m} york cur i e v at lt free before =
    let (lo, hi, al) = v.reachable i e lt at in
    record {
      found = at;
      inside = lt;
      free = free;
      first = before;
      address = omega (arith, pa_at-some m.coremap i e at);
      marked = get_elem?-modify_self m.coremap i _ ∙ ap (map_option _) at;
      others = λ j ne. get_elem?-modify_ne m.coremap i j _ ne;
      cleared = λ a p q. ground (arith, pa_at-some m.coremap i e at);
      kept = λ a o. ground (arith, pa_at-some m.coremap i e at);
      extent = refl;
      valid =
          SamePages-IsValid v refl refl (length-modify m.coremap i _)
            (modify-SamePages m.coremap i _ (λ e. refl) (λ e at k z. absurd (omega arith)));
    }

-- A page for `pmalloc` or `alloc_kpages(1)`: the first free entry's page, cleared, with that entry
-- alone changed; or 0 and no change, where every entry is in use. The search always ends.
pub take_page-Taken :
    {m : Vm} (york : ℕ) (cur : Option ℕ)
    → IsValid m
    → (addr : ℕ) × (m' : Vm) × (take_page york cur m ≡ done (addr, m'))
      × (((addr ≡ 0) × (m' ≡ m) × NoneFree m.coremap 0 m.coremapsize)
          ⊎ ((i : ℕ) × (e : Entry) × Taken york cur m addr m' i e))
unfolding take_page
take_page-Taken {m} york cur v =
    look (first_free-FirstFree m.coremapsize 0 m.coremap (omega (arith, v.covered)))
  where
    look :
        (o : Option ℕ) × (first_free m.coremapsize 0 m.coremap ≡ done o)
          × FirstFree m.coremap 0 (0 + m.coremapsize) o
        → (addr : ℕ) × (m' : Vm) × (take_page york cur m ≡ done (addr, m'))
          × (((addr ≡ 0) × (m' ≡ m) × NoneFree m.coremap 0 m.coremapsize)
              ⊎ ((i : ℕ) × (e : Entry) × Taken york cur m addr m' i e))
    look (none, eq, f) = (0, m, rw eq, inl (refl, refl, λ j e p q g. f j e p (omega arith) g))
    look (some i, eq, (e, at, free, _, lt, before)) = (
      paddr_to_kvaddr (pa_at m.coremap i),
      claim york cur i m,
      rw eq,
      inr (i, e, claim-Taken york cur i e v at (omega arith) free before),
    )

-- The entry as it was found, but for its mark and its owner.
abbrev pub SameUse : Option Entry → Option Entry → Type 0
SameUse none none = Unit {0}
SameUse (some e) (some f) = (f.pa ≡ e.pa) × (f.state ≡ e.state) × (f.follower ≡ e.follower)
SameUse _ _ = ⊥

pub SameUse-self : (o : Option Entry) → SameUse o o
SameUse-self none = tt
SameUse-self (some e) = (refl, refl, refl)

released-SameUse :
    {m m' : Vm} {york : ℕ} {cur : Option ℕ} {addr i : ℕ} {e : Entry}
    → Taken york cur m addr m' i e
    → (j : ℕ) → Dec (i ≡ j)
    → SameUse (get_elem? m.coremap j) (get_elem? (modify m'.coremap i release) j)
released-SameUse {m} {m'} {york} {cur} {e = e} t j (yes p) =
    subst₂ SameUse (sym (ap (get_elem? m.coremap) (sym p) ∙ t.found))
      (sym (
        ap (get_elem? (modify m'.coremap _ release)) (sym p)
        ∙ get_elem?-modify_self m'.coremap _ release
        ∙ ap (map_option release) t.marked))
      (refl, sym t.free, refl)
released-SameUse {m} {m'} {i = i} t j (no ne) =
    subst (SameUse (get_elem? m.coremap j))
      (sym (get_elem?-modify_ne m'.coremap i j release ne ∙ t.others j ne))
      (SameUse-self (get_elem? m.coremap j))

Taken-free_kpages :
    {m m' : Vm} (york : ℕ) (cur : Option ℕ) (addr i : ℕ) (e : Entry)
    → IsValid m
    → Taken york cur m addr m' i e
    → (m'' : Vm) × (free_kpages addr m' ≡ done m'')
      × IsValid m''
      × ((j : ℕ) → SameUse (get_elem? m.coremap j) (get_elem? m''.coremap j))
unfolding free_kpages
Taken-free_kpages {m} {m'} york cur addr i e v t = (
  record m' { coremap = modify m'.coremap i release },
  rw (page, hit, alone),
  SamePages-IsValid t.valid refl refl (length-modify m'.coremap i release) (
      modify-SamePages m'.coremap i release (λ e. refl)
        (λ f at _ _. ap (λ e. e.follower) (eq_of_some (sym at ∙ t.marked)) ∙ alone)),
  λ j. released-SameUse t j (ℕ_discrete i j),
)
  where
    taken : Entry
    taken = record e { state = 1; york = york; thread_as = cur }

    page : kvaddr_to_paddr addr ≡ e.pa
    page = let (lo, hi, al) = v.reachable i e t.inside t.found in omega (arith, t.address)

    alone : e.follower ≡ 0
    alone = v.idle i e t.inside t.found t.free

    hit : find_page e.pa m'.coremapsize 0 m'.coremap ≡ done (some (i, taken))
    hit =
        find_page_hit m'.coremapsize 0 m'.coremap i taken
          (λ a b x y p q. t.valid.distinct a b x y (omega arith) (omega arith)) t.marked
          (omega arith) (omega (arith, t.inside, t.extent)) (omega (arith, t.valid.covered))

-- A page that `pmalloc` or `alloc_kpages(1)` gave and `free_kpages` took back leaves every entry with
-- the page, the state and the count of followers that it had, in a core map that is still valid.
pub free_kpages-take_page :
    {m m' : Vm} (york : ℕ) (cur : Option ℕ) {addr : ℕ}
    → IsValid m
    → take_page york cur m ≡ done (addr, m')
    → addr ≢ 0
    → (m'' : Vm) × (free_kpages addr m' ≡ done m'')
      × IsValid m''
      × ((j : ℕ) → SameUse (get_elem? m.coremap j) (get_elem? m''.coremap j))
free_kpages-take_page {m} {m'} york cur {addr} v eq some_page = back (take_page-Taken york cur v)
  where
    back :
        (a : ℕ) × (n : Vm) × (take_page york cur m ≡ done (a, n))
          × (((a ≡ 0) × (n ≡ m) × NoneFree m.coremap 0 m.coremapsize)
              ⊎ ((i : ℕ) × (e : Entry) × Taken york cur m a n i e))
        → (m'' : Vm) × (free_kpages addr m' ≡ done m'')
          × IsValid m''
          × ((j : ℕ) → SameUse (get_elem? m.coremap j) (get_elem? m''.coremap j))
    back (a, n, eq', inl (zero_addr, _, _)) = absurd (some_page (ground arith))
    back (a, n, eq', inr (i, e, t)) =
        let same : addr ≡ a = ground arith in
        let same_vm : n ≡ m' = cc in
        let (m'', f, w, use_same) = Taken-free_kpages york cur a i e v t in
        (m'', ap₂ free_kpages same (sym same_vm) ∙ f, w, use_same)
