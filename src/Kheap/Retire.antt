-- ===== src/Kheap/Retire.antt =====
-- kern/lib/kheap.c: a page that goes back, when all its blocks are free.
use mathlib.Core.Path.{subst}
use native.Mathlib.Decide.{ℕ_discrete}
use operating_system.Prelude.{
  ℕ, ◌<◌, ◌≡◌, ◌≢◌, refl, sym, ap, ◌∙◌, true, false, not, ◌&&◌, List, [], ◌∷◌, arith, lt→ltb, ◌==◌,
  ==_iff, Bool-cases, inl, inr, done,
}
use operating_system.Kheap.Source.{PageSource, IsPageSource}
use operating_system.Kheap.Pagerefs.{freepageref}
use operating_system.Kheap.Records.{IsInuse, in_use, freepageref_lem}
use operating_system.Kheap.Defs.{Heap, page_of, type_of, put, remove_first, retire}
use operating_system.Kheap.Freelist.{member, NoRepeat, blocks_in, Frees-frame}
use operating_system.Kheap.Invariant.{IsHeap, Live, put_self, put_ne, put_at}
use operating_system.Kheap.Release.{Took}

-- Of a list that has no number twice, `remove_lists` takes the number out.
pub member-remove_first :
    (j k : ℕ) (js : List ℕ)
    → NoRepeat js
    → member k (remove_first j js) ≡ (not (k == j) && member k js)
unfolding remove_first
member-remove_first j k [] h = ground arith
member-remove_first j k (x ∷ xs) h = elim (ℕ_discrete x j) [
  | yes same ↦
      let here : (x == j) ≡ true = (==_iff x j).1 same in
      rw here (elim (ℕ_discrete k x) [
        | yes it ↦
            let out : member k xs ≡ false = ap (λ t. member t xs) it ∙ h.0 in
            ground (arith, it, same, out)
        | no other ↦ ground (arith, other, same)
      ])
  | no ne ↦
      let here : (x == j) ≡ false = ground arith in
      rw here (elim (ℕ_discrete k x) [
        | yes it ↦ ground (arith, it, ne)
        | no other ↦ ground (arith, other, member-remove_first j k xs h.1)
      ])
]

remove_first-NoRepeat : (j : ℕ) (js : List ℕ) → NoRepeat js → NoRepeat (remove_first j js)
unfolding remove_first
remove_first-NoRepeat j [] h = tt
remove_first-NoRepeat j (x ∷ xs) h = elim (Bool-cases (x == j)) [
  | inl same ↦ rw same h.1
  | inr ne ↦
      let out : member x (remove_first j xs) ≡ false =
        member-remove_first j x xs h.1 ∙ ap (λ t. not (x == j) && t) h.0 ∙ ground arith in
      rw ne (out, remove_first-NoRepeat j xs h.1)
]

module _ {p : PageSource} (laws : IsPageSource p) where
  -- The page `j` has left the heap, and nothing else has changed.
  pub record Retired (h h' : Heap p.State) (free : ℕ → List ℕ) (j : ℕ) : Type 0 where
    pub heap : IsHeap laws h' free
    pub listed : (k : ℕ) → member k h'.allbase ≡ (not (k == j) && member k h.allbase)
    pub refs : h'.refs ≡ h.refs
    pub words : (x : ℕ) → p.load h'.pages x ≡ p.load h.pages x

  module _ (h : Heap p.State) (free : ℕ → List ℕ) (ok : IsHeap laws h free) (j : ℕ)
      (on : member j h.allbase ≡ true) where
    abbrev without : p.State → List ℕ → Heap p.State
    without s inuse = record h {
      pages = s;
      inuse = inuse;
      sizebases =
          put h.sizebases (type_of (h.refs j)) (remove_first j (h.sizebases (type_of (h.refs j))));
      allbase = remove_first j h.allbase;
    }

    retire_step :
        (s : p.State) (inuse : List ℕ)
        → p.free (page_of (h.refs j)) h.pages ≡ done s
        → freepageref j h.inuse ≡ done inuse
        → retire p j h ≡ done (without s inuse)
    unfolding retire
    retire_step s inuse e f = rw (retire, lt→ltb _ _ (ok.listed j on).frees.kind, e, f) refl

    module _ (s : p.State) (inuse : List ℕ) (valid : laws.Valid s) (recs : IsInuse inuse)
        (keeps : (page : ℕ)
          → page ≢ page_of (h.refs j)
          → laws.Owned h.pages page
          → laws.Owned s page)
        (same : (x : ℕ) → p.load s x ≡ p.load h.pages x)
        (marks : (k : ℕ) → in_use inuse k ≡ (not (k == j) && in_use h.inuse k)) where
      without_listed :
          (k : ℕ)
          → member k (remove_first j h.allbase) ≡ true
          → (k ≢ j) × (member k h.allbase ≡ true)
      without_listed k m =
          let split : (not (k == j) && member k h.allbase) ≡ true =
            sym (member-remove_first j k h.allbase ok.once) ∙ m in
          (ground (arith, split), ground (arith, split))

      still_listed :
          (k : ℕ) → k ≢ j → member k h.allbase ≡ true → member k (remove_first j h.allbase) ≡ true
      still_listed k ne m = member-remove_first j k h.allbase ok.once ∙ ground (arith, ne, m)

      sized_before :
          (b k : ℕ)
          → member k ((without s inuse).sizebases b) ≡ true
          → (k ≢ j) × (member k (h.sizebases b) ≡ true)
      sized_before b k m = elim (ℕ_discrete b (type_of (h.refs j))) [
        | yes here ↦
            let split : (not (k == j) && member k (h.sizebases (type_of (h.refs j)))) ≡ true =
              sym (
                member-remove_first j k (h.sizebases (type_of (h.refs j)))
                  (ok.once_sized (type_of (h.refs j))))
              ∙ sym (
                  ap (member k) (
                    put_self h.sizebases (type_of (h.refs j))
                      (remove_first j (h.sizebases (type_of (h.refs j))))))
              ∙ ap (λ t. member k ((without s inuse).sizebases t)) (sym here)
              ∙ m in
            let was : member k (h.sizebases (type_of (h.refs j))) ≡ true = ground (arith, split) in
            (ground (arith, split), ap (λ t. member k (h.sizebases t)) here ∙ was)
        | no other ↦
            let was : member k (h.sizebases b) ≡ true =
              sym (
                ap (member k) (
                  put_ne h.sizebases (type_of (h.refs j)) b
                    (remove_first j (h.sizebases (type_of (h.refs j)))) other))
              ∙ m in
            (λ it. other (sym (ok.sized b k was).1 ∙ ap (λ t. type_of (h.refs t)) it), was)
      ]

      without-IsHeap : IsHeap laws (without s inuse) free
      without-IsHeap = record {
        valid = valid;
        records = recs;
        listed = λ k m.
            let (ne, was) = without_listed k m in
            let old = ok.listed k was in
            record {
              small = old.small;
              used = marks k ∙ ground (arith, ne, old.used);
              frees = Frees-frame (λ l lt. same _) old.frees;
              owned = keeps (page_of (h.refs k)) (λ e. ne (ok.apart k j was on e)) old.owned;
            };
        apart = λ k l m n e. ok.apart k l (without_listed k m).1 (without_listed l n).1 e;
        sized = λ b k m.
            let (ne, was) = sized_before b k m in
            (still_listed k ne (ok.sized b k was).0, (ok.sized b k was).1);
        once = remove_first-NoRepeat j h.allbase ok.once;
        once_sized = λ b.
            put_at NoRepeat h.sizebases (type_of (h.refs j)) b
              (remove_first j (h.sizebases (type_of (h.refs j))))
              (λ here.
                remove_first-NoRepeat j (h.sizebases (type_of (h.refs j)))
                  (ok.once_sized (type_of (h.refs j))))
              (λ there. ok.once_sized b);
      }

      without-Retired : Retired h (without s inuse) free j
      without-Retired = record {
        heap = without-IsHeap;
        listed = λ k. member-remove_first j k h.allbase ok.once;
        refs = refl;
        words = same;
      }

    pub retire-Retired : (h' : Heap p.State) × (retire p j h ≡ done h') × Retired h h' free j
    retire-Retired =
        let l = ok.listed j on in
        let (s, e, valid, keeps, same) =
          laws.free_lem h.pages (page_of (h.refs j)) ok.valid l.owned in
        let (inuse, f, recs, marks) = freepageref_lem j h.inuse ok.records l.small l.used in
        (
          without s inuse,
          retire_step s inuse e f,
          without-Retired s inuse valid recs keeps same marks,
        )

  -- A block that was the last live one of its page, which then leaves.
  pub Took-Retired :
      {h h1 h2 : Heap p.State} {free free' : ℕ → List ℕ} {j i : ℕ}
      → Took laws h h1 free free' j i
      → ((l : ℕ) → Live laws h1 free' j l → ⊥)
      → Retired h1 h2 free' j
      → Took laws h h2 free free' j i
  Took-Retired {h} {h1} {h2} {free} {free'} {j} t empty r = record {
    heap = r.heap;
    gone = λ v. t.gone (back j _ v);
    kept = λ k l v ne.
        let mid = t.kept k l v ne in
        let other : k ≢ j = λ same. empty l (subst (λ q. Live laws h1 free' q l) same mid) in
        let on = mid.page in
        record {
          page = r.listed k ∙ ground (arith, other, on);
          number = subst (λ f. l < blocks_in (f k)) (sym r.refs) mid.number;
          taken = mid.taken;
        };
    only = λ k l v. t.only k l (back k l v);
    place = λ k m. ap (λ f. (f k).pageaddr_and_blocktype) r.refs ∙ t.place k (before k m);
    words = λ k l x v inside. r.words x ∙ t.words k l x (back k l v) inside;
  }
    where
      before : (k : ℕ) → member k h2.allbase ≡ true → member k h1.allbase ≡ true
      before k m = let split = sym (r.listed k) ∙ m in ground (arith, split)

      back : (k l : ℕ) → Live laws h2 free' k l → Live laws h1 free' k l
      back k l v = record {
        page = before k v.page;
        number = subst (λ f. l < blocks_in (f k)) r.refs v.number;
        taken = v.taken;
      }
