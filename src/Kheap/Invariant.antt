-- ===== src/Kheap/Invariant.antt =====
-- kern/lib/kheap.c: what always holds of the subpage allocator, and which blocks are live.
use mathlib.Core.Path.{subst}
use native.Mathlib.Decide.{ℕ_discrete}
use operating_system.Prelude.{
  ℕ, ◌+◌, ◌-◌, ◌%◌, ◌/◌, ◌≤◌, ◌<◌, ◌≡◌, ◌≢◌, ◌⊎◌, inl, inr, refl, sym, ap, ◌∙◌, true, false, List,
  [], ◌∷◌, arith, ltb, ltb→lt, ◌==◌, ==_iff, length, Bool-cases, page_size, done, none, some,
}
use operating_system.Kheap.Source.{PageSource, IsPageSource}
use operating_system.Kheap.Defs.{
  Pageref, Heap, size_of, page_of, type_of, put, take_block, find_space,
}
use operating_system.Kheap.Pagerefs.{npagerefs}
use operating_system.Kheap.Records.{IsInuse, in_use}
use operating_system.Kheap.Freelist.{member, NoRepeat, blocks_in, block, Frees}
use operating_system.Kheap.Blocks.{take_block_lem}

-- `put` at its own index and at another one
pub put_self {ℓ} : {A : Type ℓ} (f : ℕ → A) (j : ℕ) (v : A) → put f j v j ≡ v
put_self f j v = let here : (j == j) ≡ true = ground arith in rw here refl

pub put_ne {ℓ} : {A : Type ℓ} (f : ℕ → A) (j k : ℕ) (v : A) → k ≢ j → put f j v k ≡ f k
put_ne f j k v ne = let other : (k == j) ≡ false = ground arith in rw other refl

-- What holds of the value that was put and of the others holds of all.
pub put_at :
    {A : Type 0} (P : A → Type 0) (f : ℕ → A) (j k : ℕ) (v : A)
    → (k ≡ j → P v)
    → (k ≢ j → P (f k))
    → P (put f j v k)
put_at P f j k v here there = elim (ℕ_discrete k j) [
  | yes same ↦ let test : (k == j) ≡ true = ground arith in rw test (here same)
  | no other ↦ let test : (k == j) ≡ false = ground arith in rw test (there other)
]

pub put_both :
    {A B : Type 0} (P : A → B → Type 0) (f : ℕ → A) (g : ℕ → B) (j k : ℕ) (v : A) (w : B)
    → (k ≡ j → P v w)
    → (k ≢ j → P (f k) (g k))
    → P (put f j v k) (put g j w k)
put_both P f g j k v w here there = elim (ℕ_discrete k j) [
  | yes same ↦ let test : (k == j) ≡ true = ground arith in rw test (here same)
  | no other ↦ let test : (k == j) ≡ false = ground arith in rw test (there other)
]

module _ {p : PageSource} (laws : IsPageSource p) where
  pub record IsListed (h : Heap p.State) (free : ℕ → List ℕ) (j : ℕ) : Type 0 where
    pub small : j < npagerefs
    pub used : in_use h.inuse j ≡ true
    pub frees : Frees (p.load h.pages) (h.refs j) (free j)
    pub owned : laws.Owned h.pages (page_of (h.refs j))

  -- The heap is in order, and `free` says which blocks of each page are free: the pages on the lists are
  -- different pages in use with different records, and the free blocks of each are linked.
  pub record IsHeap (h : Heap p.State) (free : ℕ → List ℕ) : Type 0 where
    pub valid : laws.Valid h.pages
    pub records : IsInuse h.inuse
    pub listed : (j : ℕ) → member j h.allbase ≡ true → IsListed h free j
    pub apart :
        (j k : ℕ)
        → member j h.allbase ≡ true
        → member k h.allbase ≡ true
        → page_of (h.refs j) ≡ page_of (h.refs k)
        → j ≡ k
    pub sized :
        (b j : ℕ)
        → member j (h.sizebases b) ≡ true
        → (member j h.allbase ≡ true) × (type_of (h.refs j) ≡ b)
    pub once : NoRepeat h.allbase
    pub once_sized : (b : ℕ) → NoRepeat (h.sizebases b)

  -- The block `i` of the page `j` was given out and not given back.
  pub record Live (h : Heap p.State) (free : ℕ → List ℕ) (j i : ℕ) : Type 0 where
    pub page : member j h.allbase ≡ true
    pub number : i < blocks_in (h.refs j)
    pub taken : member i (free j) ≡ false

  -- The words of a block
  abbrev pub InBlock : Pageref → ℕ → ℕ → Type 0
  InBlock pr i x = (block pr i ≤ x) × (x < block pr i + size_of (type_of pr))

  -- The blocks that are live in `h` are live in `h'`, where they were and with what they held, and
  -- only the block `i` of the page `j` has come to them.
  pub record Gave (h h' : Heap p.State) (free free' : ℕ → List ℕ) (j i : ℕ) : Type 0 where
    pub heap : IsHeap h' free'
    pub live : Live h' free' j i
    pub fresh : Live h free j i → ⊥
    pub kept : (k l : ℕ) → Live h free k l → Live h' free' k l
    pub only : (k l : ℕ) → Live h' free' k l → ((k ≡ j) × (l ≡ i)) ⊎ Live h free k l
    pub place :
        (k : ℕ)
        → member k h.allbase ≡ true
        → (h'.refs k).pageaddr_and_blocktype ≡ (h.refs k).pageaddr_and_blocktype
    pub words :
        (k l x : ℕ)
        → Live h free k l
        → InBlock (h.refs k) l x
        → p.load h'.pages x ≡ p.load h.pages x

  module _ (h : Heap p.State) (free : ℕ → List ℕ) (ok : IsHeap h free) (j i : ℕ) (is : List ℕ)
      (pr : Pageref) (on : member j h.allbase ≡ true) (head : free j ≡ i ∷ is)
      (same : pr.pageaddr_and_blocktype ≡ (h.refs j).pageaddr_and_blocktype)
      (rest : Frees (p.load h.pages) pr is) where
    abbrev pub taken_heap : Heap p.State
    taken_heap = record h { refs = put h.refs j pr }

    taken_place :
        (k : ℕ) → (put h.refs j pr k).pageaddr_and_blocktype ≡ (h.refs k).pageaddr_and_blocktype
    taken_place k =
        put_at (λ r. r.pageaddr_and_blocktype ≡ (h.refs k).pageaddr_and_blocktype) h.refs j k pr
          (λ here. same ∙ ap (λ t. (h.refs t).pageaddr_and_blocktype) (sym here)) (λ other. refl)

    taken-IsListed : (k : ℕ) → member k h.allbase ≡ true → IsListed taken_heap (put free j is) k
    taken-IsListed k m =
        let old = ok.listed k m in
        record {
          small = old.small;
          used = old.used;
          owned =
              subst (λ a. laws.Owned h.pages (a - a % page_size)) (sym (taken_place k)) old.owned;
          frees =
              put_both (Frees (p.load h.pages)) h.refs free j k pr is (λ here. rest)
                (λ other. old.frees);
        }

    taken_heap-IsHeap : IsHeap taken_heap (put free j is)
    taken_heap-IsHeap = record {
      valid = ok.valid;
      records = ok.records;
      listed = taken-IsListed;
      apart = λ k l m n e. ok.apart k l m n (
          sym (ap (λ a. a - a % page_size) (taken_place k))
          ∙ e
          ∙ ap (λ a. a - a % page_size) (taken_place l));
      sized = λ b k m.
          ((ok.sized b k m).0, ap (λ a. a % page_size) (taken_place k) ∙ (ok.sized b k m).1);
      once = ok.once;
      once_sized = ok.once_sized;
    }

    many : (k : ℕ) → blocks_in (put h.refs j pr k) ≡ blocks_in (h.refs k)
    many k = ap (λ a. page_size / size_of (a % page_size)) (taken_place k)

    head_out : member i (free j) ≡ true
    head_out = ap (member i) head ∙ ground arith

    taken_kept : (k l : ℕ) → Live h free k l → Live taken_heap (put free j is) k l
    taken_kept k l v = record {
      page = v.page;
      number = omega (arith, v.number, many k);
      taken =
          put_at (λ fs. member l fs ≡ false) free j k is
            (λ here.
              ground (arith, sym (ap (λ t. member l (free t)) here) ∙ v.taken, ap (member l) head))
            (λ other. v.taken);
    }

    taken_only :
        (k l : ℕ) → Live taken_heap (put free j is) k l → ((k ≡ j) × (l ≡ i)) ⊎ Live h free k l
    taken_only k l v = elim (ℕ_discrete k j) [
      | yes here ↦ elim (ℕ_discrete l i) [
        | yes it ↦ inl (here, it)
        | no other ↦ inr (record {
          page = v.page;
          number = omega (arith, v.number, many k);
          taken =
              let left : member l is ≡ false =
                sym (ap (member l) (ap (put free j is) here ∙ put_self free j is)) ∙ v.taken in
              ap (λ t. member l (free t)) here ∙ ap (member l) head ∙ ground (arith, other, left);
        })
      ]
      | no there ↦ inr (record {
        page = v.page;
        number = omega (arith, v.number, many k);
        taken = sym (ap (member l) (put_ne free j k is there)) ∙ v.taken;
      })
    ]

    pub taken-Gave : Gave h taken_heap free (put free j is) j i
    taken-Gave =
        let old = (ok.listed j on).frees in
        record {
          heap = taken_heap-IsHeap;
          live = record {
            page = on;
            number = omega (arith, old.inside i head_out, many j);
            taken = ap (member i) (put_self free j is) ∙ (subst NoRepeat head old.apart).0;
          };
          fresh = λ v. cc (sym v.taken ∙ head_out);
          kept = taken_kept;
          only = taken_only;
          place = λ k m. taken_place k;
          words = λ k l x v m. refl;
        }

  -- A block is taken from a page on the lists that has one free.
  pub take_block-Gave :
      (h : Heap p.State) (free : ℕ → List ℕ) (j : ℕ)
      → IsHeap h free
      → member j h.allbase ≡ true
      → 0 < (h.refs j).nfree
      → (i : ℕ) × (h' : Heap p.State) × (free' : ℕ → List ℕ) × (take_block p j h
          ≡ done (block (h.refs j) i, h'))
        × Gave h h' free free' j i
  take_block-Gave h free j ok on some_free =
      let old = (ok.listed j on).frees in
      elim (List-cases (free j)) [
        | inl nothing ↦ absurd (omega (arith, old.count, ap length nothing))
        | inr (i, is, head) ↦
            let (pr, e, same, rest) =
              take_block_lem p h j i is (subst (Frees (p.load h.pages) (h.refs j)) head old) in
            (
              i,
              record h { refs = put h.refs j pr },
              put free j is,
              e,
              taken-Gave h free ok j i is pr on head same rest,
            )
      ]
    where
      List-cases : (l : List ℕ) → (l ≡ []) ⊎ ((x : ℕ) × (xs : List ℕ) × (l ≡ x ∷ xs))
      List-cases [] = inl refl
      List-cases (x ∷ xs) = inr (x, xs, refl)

-- The search for a page with a free block
pub find_space_lem :
    (p : PageSource) (b : ℕ) (js : List ℕ) (refs : ℕ → Pageref)
    → ((j : ℕ) → member j js ≡ true → type_of (refs j) ≡ b)
    → (find_space p b js refs ≡ done none)
      ⊎ ((j : ℕ) × (find_space p b js refs ≡ done (some j))
          × (member j js ≡ true)
          × (0 < (refs j).nfree))
unfolding find_space
find_space_lem p b [] refs h = inl refl
find_space_lem p b (j ∷ js) refs h =
    let typed : (type_of (refs j) == b) ≡ true = (==_iff _ _).1 (h j (ground arith)) in
    elim (Bool-cases (ltb 0 (refs j).nfree)) [
      | inl room ↦ inr (j, rw (typed, room) refl, ground arith, ltb→lt _ _ room)
      | inr full ↦ elim (find_space_lem p b js refs (λ k m. h k (ground (arith, m)))) [
        | inl nothing ↦ inl (rw (typed, full) nothing)
        | inr (k, e, m, room) ↦ inr (k, rw (typed, full) e, ground (arith, m), room)
      ]
    ]
