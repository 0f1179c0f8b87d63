-- ===== src/Kheap/NewPage.antt =====
-- kern/lib/kheap.c: a page that comes to the heap.
use mathlib.Core.Path.{subst}
use native.Mathlib.Decide.{ℕ_discrete}
use operating_system.Prelude.{
  ℕ, suc, ◌/◌, ◌^◌, ◌<◌, ◌≡◌, ◌≢◌, ◌⊎◌, inl, inr, sym, ap, ◌∙◌, true, false, ◌||◌, List, ◌∷◌, arith,
  ltb, ltb→ge, ◌==◌, Bool-cases, page_size,
}
use operating_system.Kheap.Source.{PageSource, IsPageSource, InPage, Given}
use operating_system.Kheap.Pagerefs.{npagerefs}
use operating_system.Kheap.Records.{IsInuse, in_use}
use operating_system.Kheap.Defs.{Heap, size_of, nsizes, page_of, type_of, put}
use operating_system.Kheap.Freelist.{
  member, NoRepeat, size_of-IsSize, blocks_in, block, Frees, Frees-frame,
}
use operating_system.Kheap.Blocks.{down, member-down, block_bound, page-IsSize_in}
use operating_system.Kheap.Invariant.{
  IsListed, IsHeap, Live, InBlock, put_self, put_ne, put_at, put_both,
}
use operating_system.Kheap.Filled.{rest_of, fresh_ref, filled}

-- What stands in the lists of a family after a push on one of them.
pushed_cases :
    (f : ℕ → List ℕ) (b j c k : ℕ)
    → member k (put f b (j ∷ f b) c) ≡ true
    → ((k ≡ j) × (c ≡ b)) ⊎ (member k (f c) ≡ true)
pushed_cases f b j c k m = elim (ℕ_discrete c b) [
  | yes here ↦
      let m' : member k (j ∷ f b) ≡ true =
        sym (ap (member k) (ap (put f b (j ∷ f b)) here ∙ put_self f b (j ∷ f b))) ∙ m in
      elim (ℕ_discrete k j) [
        | yes same ↦ inl (same, here)
        | no other ↦ inr (ap (λ t. member k (f t)) here ∙ ground (arith, m', other))
      ]
  | no there ↦ inr (sym (ap (member k) (put_ne f b c (j ∷ f b) there)) ∙ m)
]

module _ {p : PageSource} (laws : IsPageSource p) where
  -- A page has come to the heap, with a free block of the type `b`, and nothing else has changed.
  pub record Grew (h h' : Heap p.State) (free free' : ℕ → List ℕ) (b j : ℕ) : Type 0 where
    pub heap : IsHeap laws h' free'
    pub on : member j h'.allbase ≡ true
    pub off : member j h.allbase ≡ false
    pub still : (k : ℕ) → member k h.allbase ≡ true → member k h'.allbase ≡ true
    pub some_free : 0 < (h'.refs j).nfree
    pub kind : type_of (h'.refs j) ≡ b
    pub kept : (k l : ℕ) → Live laws h free k l → Live laws h' free' k l
    pub only : (k l : ℕ) → Live laws h' free' k l → Live laws h free k l
    pub place :
        (k : ℕ)
        → member k h.allbase ≡ true
        → (h'.refs k).pageaddr_and_blocktype ≡ (h.refs k).pageaddr_and_blocktype
    pub words :
        (k l x : ℕ)
        → Live laws h free k l
        → InBlock laws (h.refs k) l x
        → p.load h'.pages x ≡ p.load h.pages x

  -- The words of a listed page stay, where a page that is nobody's is filled.
  module _ (h : Heap p.State) (free : ℕ → List ℕ) (ok : IsHeap laws h free) (s s' : p.State) (a : ℕ)
      (given : Given p laws.Owned h.pages s a)
      (others : (x : ℕ) → x < 2 ^ 32 → (InPage a x → ⊥) → p.load s' x ≡ p.load s x) where
    old_words :
        (k x : ℕ)
        → member k h.allbase ≡ true
        → InPage (page_of (h.refs k)) x
        → p.load s' x ≡ p.load h.pages x
    old_words k x m inside =
        let listed = ok.listed k m in
        let differ : page_of (h.refs k) ≢ a =
          λ e. given.fresh (subst (laws.Owned h.pages) e listed.owned) in
        let out : InPage a x → ⊥ = λ there. omega (arith, differ, given.aligned, there, inside) in
        let low : x < 2 ^ 32 = omega (arith, listed.frees.top, inside) in
        others x low out ∙ given.same x low out

    old_Frees : (k : ℕ) → member k h.allbase ≡ true → Frees (p.load s') (h.refs k) (free k)
    old_Frees k m =
        let f = (ok.listed k m).frees in
        Frees-frame
          (λ l lt.
            old_words k (block (h.refs k) l) m
              (omega arith, omega (arith, block_bound f l lt, (page-IsSize_in f).low)))
          f

    module _ (inuse : List ℕ) (j b : ℕ) (recs : IsInuse inuse) (small : j < npagerefs)
        (unused : in_use h.inuse j ≡ false)
        (marks : (k : ℕ) → in_use inuse k ≡ ((k == j) || in_use h.inuse k)) (valid : laws.Valid s')
        (kind : b < nsizes) (keeps : (page : ℕ) → laws.Owned s page → laws.Owned s' page)
        (owned : (page : ℕ) → laws.Owned h.pages page → laws.Owned s page)
        (frees : Frees (p.load s') (fresh_ref a b) (down (suc (rest_of b)))) where
      abbrev pub grown : Heap p.State
      grown = filled (record h { inuse = inuse; pages = s }) j a b s'

      abbrev pub grown_free : ℕ → List ℕ
      grown_free = put free j (down (suc (rest_of b)))

      new_page : page_of (fresh_ref a b) ≡ a
      new_page = let al = given.aligned in omega arith

      new_type : type_of (fresh_ref a b) ≡ b
      new_type = let al = given.aligned in omega arith

      off : member j h.allbase ≡ false
      off = elim (Bool-cases (member j h.allbase)) [
        | inl on ↦ cc (sym (ok.listed j on).used ∙ unused)
        | inr out ↦ out
      ]

      -- A record that was on the lists is another one.
      other : (k : ℕ) → member k h.allbase ≡ true → k ≢ j
      other k m same = cc (sym m ∙ ap (λ t. member t h.allbase) same ∙ off)

      old_member : (k : ℕ) → member k (j ∷ h.allbase) ≡ true → k ≢ j → member k h.allbase ≡ true
      old_member k m ne = ground (arith, m, ne)

      old_ref : (k : ℕ) → k ≢ j → put h.refs j (fresh_ref a b) k ≡ h.refs k
      old_ref k ne = put_ne h.refs j k (fresh_ref a b) ne

      page_here : (k : ℕ) → k ≡ j → page_of (put h.refs j (fresh_ref a b) k) ≡ a
      page_here k same =
          ap (λ t. page_of (put h.refs j (fresh_ref a b) t)) same
          ∙ ap page_of (put_self h.refs j (fresh_ref a b))
          ∙ new_page

      type_here : (k : ℕ) → k ≡ j → type_of (put h.refs j (fresh_ref a b) k) ≡ b
      type_here k same =
          ap (λ t. type_of (put h.refs j (fresh_ref a b) t)) same
          ∙ ap type_of (put_self h.refs j (fresh_ref a b))
          ∙ new_type

      grown-IsListed : (k : ℕ) → member k grown.allbase ≡ true → IsListed laws grown grown_free k
      grown-IsListed k m = elim (ℕ_discrete k j) [
        | yes same ↦ record {
          small = omega arith;
          used = marks k ∙ ground (arith, same);
          owned = subst (laws.Owned s') (sym (page_here k same)) (keeps a given.owned);
          frees =
              put_both (Frees (p.load s')) h.refs free j k (fresh_ref a b) (down (suc (rest_of b)))
                (λ here. frees) (λ ne. absurd (ne same));
        }
        | no ne ↦
            let old = ok.listed k (old_member k m ne) in
            record {
              small = old.small;
              used = marks k ∙ ground (arith, old.used);
              owned =
                  subst (λ r. laws.Owned s' (page_of r)) (sym (old_ref k ne))
                    (keeps (page_of (h.refs k)) (owned (page_of (h.refs k)) old.owned));
              frees =
                  put_both (Frees (p.load s')) h.refs free j k (fresh_ref a b)
                    (down (suc (rest_of b))) (λ here. frees)
                    (λ there. old_Frees k (old_member k m ne));
            }
      ]

      fresh_apart :
          (k l : ℕ)
          → member k grown.allbase ≡ true
          → k ≢ j
          → l ≡ j
          → page_of (grown.refs k) ≡ page_of (grown.refs l)
          → ⊥
      fresh_apart k l m ne same e =
          let old = ok.listed k (old_member k m ne) in
          given.fresh (
            subst (laws.Owned h.pages) (sym (ap page_of (old_ref k ne)) ∙ e ∙ page_here l same)
              old.owned)

      grown_apart :
          (k l : ℕ)
          → member k grown.allbase ≡ true
          → member l grown.allbase ≡ true
          → page_of (grown.refs k) ≡ page_of (grown.refs l)
          → k ≡ l
      grown_apart k l m n e = elim (ℕ_discrete k j) [
        | yes k_new ↦ elim (ℕ_discrete l j) [
          | yes l_new ↦ k_new ∙ sym l_new
          | no l_old ↦ absurd (fresh_apart l k n l_old k_new (sym e))
        ]
        | no k_old ↦ elim (ℕ_discrete l j) [
          | yes l_new ↦ absurd (fresh_apart k l m k_old l_new e)
          | no l_old ↦
              ok.apart k l (old_member k m k_old) (old_member l n l_old)
                (sym (ap page_of (old_ref k k_old)) ∙ e ∙ ap page_of (old_ref l l_old))
        ]
      ]

      unsized : (c : ℕ) → member j (h.sizebases c) ≡ false
      unsized c = elim (Bool-cases (member j (h.sizebases c))) [
        | inl on ↦ cc (sym (ok.sized c j on).0 ∙ off)
        | inr out ↦ out
      ]

      grown_sized :
          (c k : ℕ)
          → member k (grown.sizebases c) ≡ true
          → (member k grown.allbase ≡ true) × (type_of (grown.refs k) ≡ c)
      grown_sized c k m = elim (pushed_cases h.sizebases b j c k m) [
        | inl (same, here) ↦ (ground (arith, same), type_here k same ∙ sym here)
        | inr old ↦
            let was = ok.sized c k old in
            (ground (arith, was.0), ap type_of (old_ref k (other k was.0)) ∙ was.1)
      ]

      grown-IsHeap : IsHeap laws grown grown_free
      grown-IsHeap = record {
        valid = valid;
        records = recs;
        listed = grown-IsListed;
        apart = grown_apart;
        sized = grown_sized;
        once = (off, ok.once);
        once_sized = λ c.
            put_at NoRepeat h.sizebases b c (j ∷ h.sizebases b)
              (λ here. (unsized b, ok.once_sized b)) (λ there. ok.once_sized c);
      }

      same_ref : (k : ℕ) → member k h.allbase ≡ true → put h.refs j (fresh_ref a b) k ≡ h.refs k
      same_ref k m = old_ref k (other k m)

      grown_kept : (k l : ℕ) → Live laws h free k l → Live laws grown grown_free k l
      grown_kept k l v = record {
        page = ground (arith, v.page);
        number = subst (λ r. l < blocks_in r) (sym (same_ref k v.page)) v.number;
        taken = ap (member l) (put_ne free j k (down (suc (rest_of b))) (other k v.page)) ∙ v.taken;
      }

      grown_only : (k l : ℕ) → Live laws grown grown_free k l → Live laws h free k l
      grown_only k l v = elim (ℕ_discrete k j) [
        | yes same ↦
            let many : blocks_in (put h.refs j (fresh_ref a b) k) ≡ page_size / size_of b =
              ap (λ t. page_size / size_of t) (type_here k same) in
            let out : ltb l (suc (rest_of b)) ≡ false =
              sym (member-down (suc (rest_of b)) l)
              ∙ sym (ap (member l) (ap grown_free same ∙ put_self free j (down (suc (rest_of b)))))
              ∙ v.taken in
            absurd (omega (arith, many, v.number, ltb→ge l (suc (rest_of b)) out))
        | no ne ↦ record {
          page = old_member k v.page ne;
          number = subst (λ r. l < blocks_in r) (old_ref k ne) v.number;
          taken = sym (ap (member l) (put_ne free j k (down (suc (rest_of b))) ne)) ∙ v.taken;
        }
      ]

      pub grown-Grew : Grew h grown free grown_free b j
      grown-Grew = record {
        heap = grown-IsHeap;
        on = ground arith;
        off = off;
        still = λ k m. ground (arith, m);
        some_free =
            subst (λ r. 0 < r.nfree) (sym (put_self h.refs j (fresh_ref a b)))
              (omega (arith, (size_of-IsSize b kind).many));
        kind = ap type_of (put_self h.refs j (fresh_ref a b)) ∙ new_type;
        kept = grown_kept;
        only = grown_only;
        place = λ k m. ap (λ r. r.pageaddr_and_blocktype) (same_ref k m);
        words = λ k l x v inside.
            let f = (ok.listed k v.page).frees in
            old_words k x v.page
              (omega (arith, inside), omega (arith, inside, block_bound f l v.number));
      }
