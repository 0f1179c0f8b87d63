-- ===== src/Kheap/Machine.antt =====
-- kern/lib/kheap.c over kern/vm/vm.c: the heap's pages come from the core map, and its words are in the
-- memory that the core map describes. `cur` is the address space of the running thread.
use mathlib.Core.Path.{subst}
use native.Mathlib.Decide.{ℕ_discrete}
use operating_system.Prelude.{
  ℕ, ◌+◌, ◌^◌, ◌≤◌, ◌<◌, ◌≡◌, ◌≢◌, ◌⊎◌, inl, inr, refl, sym, ap, ◌∙◌, Option, some, arith, ◌==◌,
  if◌then◌else◌, done, get_elem?, eq_of_some, modify, length-modify, get_elem?-modify_ne, page_size,
  kseg0, kvaddr_to_paddr,
}
use operating_system.Coremap.Defs.{Entry, Vm, take_page, alloc_kpages, release, free_kpages}
use operating_system.Coremap.Search.{find_page_hit}
use operating_system.Coremap.Pages.{
  IsValid, SamePages-IsValid, modify-SamePages, Taken, take_page-Taken,
}
use operating_system.Kheap.Source.{PageSource, IsPageSource, InPage, Given}

abbrev pub machine : Option ℕ → PageSource
machine cur = record {
  State = Vm;
  load = λ m x. m.ram (kvaddr_to_paddr x);
  store = λ a v m. record m { ram = λ x. if x == kvaddr_to_paddr a then v else m.ram x };
  alloc = λ n m. alloc_kpages n cur m;
  free = free_kpages;
}

-- A valid core map, all of whose pages kseg0 reaches: it is 512 MB long.
pub record IsReady (m : Vm) : Type 0 where
  pub map : IsValid m
  pub low :
      (i : ℕ) (e : Entry)
      → i < m.coremapsize
      → get_elem? m.coremap i ≡ some e
      → e.pa + page_size ≤ 2 ^ 29

-- The page was given out alone, and not given back.
pub record IsOwned (m : Vm) (a : ℕ) : Type 0 where
  pub index : ℕ
  pub entry : Entry
  pub inside : index < m.coremapsize
  pub found : get_elem? m.coremap index ≡ some entry
  pub address : a ≡ entry.pa + kseg0
  pub used : entry.state ≡ 1
  pub alone : entry.follower ≡ 0

-- Addresses of 32 bits have physical addresses of their own.
paddr_eq : (x a : ℕ) → x < 2 ^ 32 → a < 2 ^ 32 → (kvaddr_to_paddr x == kvaddr_to_paddr a) ≡ (x == a)
paddr_eq x a p q = elim (ℕ_discrete x a) [
  | yes same ↦ ground (arith, same)
  | no ne ↦
      let differ : kvaddr_to_paddr x ≢ kvaddr_to_paddr a = omega arith in ground (arith, ne, differ)
]

alloc_one : (cur : Option ℕ) (m : Vm) → IsValid m → alloc_kpages 1 cur m ≡ take_page b'k' cur m
unfolding alloc_kpages
alloc_one cur m v = rw (v.up) refl

module _ {m m' : Vm} {york : ℕ} {cur : Option ℕ} {addr i : ℕ} {e : Entry} (r : IsReady m)
    (t : Taken york cur m addr m' i e) where
  taken_low : IsReady m'
  taken_low = record {
    map = t.valid;
    low = λ j f lt at. elim (ℕ_discrete i j) [
      | yes same ↦
          let here = ap (get_elem? m'.coremap) same ∙ at in
          let page : e.pa ≡ f.pa = ap (λ e. e.pa) (eq_of_some (sym t.marked ∙ here)) in
          omega (arith, page, r.low i e t.inside t.found)
      | no ne ↦ r.low j f (omega (arith, lt, t.extent)) (sym (t.others j ne) ∙ at)
    ];
  }

  taken-IsOwned : (page : ℕ) → IsOwned m page → IsOwned m' page
  taken-IsOwned page o =
      let differ : i ≢ o.index = λ same.
        let state : e.state ≡ o.entry.state =
          ap (λ e. e.state) (eq_of_some (sym t.found ∙ ap (get_elem? m.coremap) same ∙ o.found)) in
        omega (arith, state, o.used, t.free) in
      record {
        index = o.index;
        entry = o.entry;
        inside = omega (arith, o.inside, t.extent);
        found = t.others o.index differ ∙ o.found;
        address = o.address;
        used = o.used;
        alone = o.alone;
      }

  taken-Given : Given (machine cur) IsOwned m m' addr
  taken-Given =
      let (lo, hi, al) = r.map.reachable i e t.inside t.found in
      let low = r.low i e t.inside t.found in
      record {
        some_page = omega (arith, t.address);
        aligned = omega (arith, t.address, al);
        below = omega (arith, t.address, low);
        fresh = λ o.
            let page : e.pa ≡ o.entry.pa = omega (arith, o.address, t.address) in
            let same = r.map.distinct i o.index e o.entry t.inside o.inside t.found o.found page in
            let state : e.state ≡ o.entry.state =
              ap (λ e. e.state)
                (eq_of_some (sym t.found ∙ ap (get_elem? m.coremap) same ∙ o.found)) in
            omega (arith, state, o.used, t.free);
        owned = record {
          index = i;
          entry = record e { state = 1; york = york; thread_as = cur };
          inside = omega (arith, t.inside, t.extent);
          found = t.marked;
          address = t.address;
          used = refl;
          alone = r.map.idle i e t.inside t.found t.free;
        };
        same = λ x lt out. t.kept (kvaddr_to_paddr x) (sides x lt out);
      }
    where
      sides :
          (x : ℕ)
          → x < 2 ^ 32
          → (InPage addr x → ⊥)
          → (kvaddr_to_paddr x < e.pa) ⊎ (e.pa + page_size ≤ kvaddr_to_paddr x)
      sides x lt out = ground (arith, t.address, r.low i e t.inside t.found)

module _ (m : Vm) (a : ℕ) (r : IsReady m) (o : IsOwned m a) where
  abbrev freed : Vm
  freed = record m { coremap = modify m.coremap o.index release }

  free_one : free_kpages a m ≡ done freed
  unfolding free_kpages
  free_one =
      let (lo, hi, al) = r.map.reachable o.index o.entry o.inside o.found in
      let page : kvaddr_to_paddr a ≡ o.entry.pa = omega (arith, o.address, hi) in
      let hit =
        find_page_hit m.coremapsize 0 m.coremap o.index o.entry
          (λ a b x y p q. r.map.distinct a b x y (omega arith) (omega arith)) o.found (omega arith)
          (omega (arith, o.inside)) (omega (arith, r.map.covered)) in
      rw (page, hit, o.alone) refl

  freed-IsReady : IsReady freed
  freed-IsReady = record {
    map = SamePages-IsValid r.map refl refl (length-modify m.coremap o.index release) (
        modify-SamePages m.coremap o.index release (λ e. refl)
          (λ f at _ _. ap (λ e. e.follower) (eq_of_some (sym at ∙ o.found)) ∙ o.alone));
    low = λ j f lt at.
        let (e, at', page, idle) =
          modify-SamePages m.coremap o.index release (λ e. refl)
            (λ f at _ _. ap (λ e. e.follower) (eq_of_some (sym at ∙ o.found)) ∙ o.alone) j f at in
        omega (arith, page, r.low j e lt at');
  }

  freed-IsOwned : (page : ℕ) → page ≢ a → IsOwned m page → IsOwned freed page
  freed-IsOwned page ne q =
      let differ : o.index ≢ q.index = λ same.
        let pa : o.entry.pa ≡ q.entry.pa =
          ap (λ e. e.pa) (eq_of_some (sym o.found ∙ ap (get_elem? m.coremap) same ∙ q.found)) in
        ne (omega (arith, pa, o.address, q.address)) in
      record {
        index = q.index;
        entry = q.entry;
        inside = q.inside;
        found = get_elem?-modify_ne m.coremap o.index q.index release differ ∙ q.found;
        address = q.address;
        used = q.used;
        alone = q.alone;
      }

-- What the heap relies on holds of the core map and its memory.
pub machine-IsPageSource : (cur : Option ℕ) → IsPageSource (machine cur)
machine-IsPageSource cur = record {
  Valid = IsReady;
  Owned = IsOwned;
  load-store = λ s a v x p q. rw (paddr_eq x a q p) refl;
  store-Valid = λ s a v r. record {
    map = record {
      up = r.map.up;
      covered = r.map.covered;
      distinct = r.map.distinct;
      reachable = r.map.reachable;
      idle = r.map.idle;
    };
    low = r.low;
  };
  store-Owned = λ s a v page o. record {
    index = o.index;
    entry = o.entry;
    inside = o.inside;
    found = o.found;
    address = o.address;
    used = o.used;
    alone = o.alone;
  };
  alloc_lem = λ s r.
      let (a, s', e, answer) = take_page-Taken b'k' cur r.map in
      let made = alloc_one cur s r.map ∙ e in
      elim answer [
        | inl (zero_addr, same, _) ↦ (
          a,
          s',
          made,
          subst IsReady (sym same) r,
          λ page o. subst (λ n. IsOwned n page) (sym same) o,
          inl (zero_addr, same),
        )
        | inr (i, f, t) ↦ (a, s', made, taken_low r t, taken-IsOwned r t, inr (taken-Given r t))
      ];
  free_lem = λ s a r o.
      (freed s a r o, free_one s a r o, freed-IsReady s a r o, freed-IsOwned s a r o, λ x. refl);
}

pub machine-Valid : (cur : Option ℕ) (m : Vm) → IsReady m → (machine-IsPageSource cur).Valid m
unfolding machine-IsPageSource
machine-Valid cur m r = r

pub machine-Owned :
    (cur : Option ℕ) (m : Vm) (a : ℕ) → IsOwned m a → (machine-IsPageSource cur).Owned m a
unfolding machine-IsPageSource
machine-Owned cur m a o = o
