-- ===== src/Kheap/Records.antt =====
-- kern/lib/kheap.c: which page records are in use, before and after allocpageref and freepageref.
use Prim.Native.Nat.{bit_and, bit_or}
use native.Mathlib.Decide.{ℕ_discrete}
use operating_system.Prelude.{
  ℕ, zero, suc, ◌+◌, ◌-◌, ◌*◌, ◌/◌, ◌%◌, ◌^◌, ◌≤◌, ◌<◌, ◌≡◌, ◌⊎◌, inl, inr, refl, sym, ap, ◌∙◌,
  Bool, true, false, not, ◌&&◌, ◌||◌, Option, none, some, List, arith, lt→ltb, ◌==◌, ==_iff,
  if◌then◌else◌, length, get_elem?, set, length-set, get_elem?-set_self, get_elem?-set_ne,
  get_elem?_of_lt, lt_of_get_elem?, Bool-cases, done, eq_of_some, bit, bit_bound, bit_and_test,
  bit_set, bit_set_bound, bit_cleared, bit_cleared_bound, bits_full,
}
use operating_system.Kheap.Pagerefs.{
  clear_bit, take_ref, alloc_loop, allocpageref, freepageref, inuse_words, npagerefs,
}

abbrev pub has_bit : Option ℕ → ℕ → Bool
has_bit none o = false
has_bit (some w) o = not (bit w o == 0)

abbrev pub in_use : List ℕ → ℕ → Bool
in_use inuse j = has_bit (get_elem? inuse (j / 32)) (j % 32)

pub record IsInuse (inuse : List ℕ) : Type 0 where
  pub extent : length inuse ≡ inuse_words
  pub words : (i w : ℕ) → get_elem? inuse i ≡ some w → w < 2 ^ 32

-- The first clear bit, or none.
clear_bit_lem :
    (n j w : ℕ)
    → ((clear_bit n j w ≡ none) × ((i : ℕ) → j ≤ i → i < j + n → bit w i ≡ 1))
      ⊎ ((o : ℕ) × (clear_bit n j w ≡ some o) × (o < j + n) × (bit w o ≡ 0))
unfolding clear_bit
clear_bit_lem zero j w = inl (refl, λ i p q. absurd (omega arith))
clear_bit_lem (suc n) j w = elim (Bool-cases (bit w j == 0)) [
  | inl clear ↦ inr (j, rw (bit_and_test w j, clear) refl, omega arith, (==_iff _ _).0 clear)
  | inr busy ↦ elim (clear_bit_lem n (j + 1) w) [
    | inl (nothing, all) ↦ inl (
      rw (bit_and_test w j, busy) nothing,
      λ i p q. elim (ℕ_discrete i j) [
        | yes same ↦ ap (bit w) same ∙ ground (arith, bit_bound w j)
        | no other ↦ all i (omega arith) (omega arith)
      ],
    )
    | inr (o, found, low, clear) ↦ inr (o, rw (bit_and_test w j, busy) found, omega arith, clear)
  ]
]

-- What a change of the bit `o` of the word `i` makes of the bits.
module _ (inuse : List ℕ) (i w v : ℕ) (at : get_elem? inuse i ≡ some w) where
  set_word :
      (k : ℕ)
      → in_use (set inuse i v) k
        ≡ (if k / 32 == i then not (bit v (k % 32) == 0) else in_use inuse k)
  set_word k = elim (ℕ_discrete (k / 32) i) [
    | yes same ↦
        let here : get_elem? (set inuse i v) (k / 32) ≡ some v =
          ap (get_elem? (set inuse i v)) same
          ∙ get_elem?-set_self inuse i v (lt_of_get_elem? inuse i at) in
        let test : (k / 32 == i) ≡ true = ground arith in
        rw test (ap (λ x. has_bit x (k % 32)) here)
    | no other ↦
        let test : (k / 32 == i) ≡ false = ground arith in
        rw test (ap (λ x. has_bit x (k % 32)) (get_elem?-set_ne inuse i (k / 32) v (omega arith)))
  ]

  set-IsInuse : IsInuse inuse → v < 2 ^ 32 → IsInuse (set inuse i v)
  set-IsInuse h small = record {
    extent = length-set inuse i v ∙ h.extent;
    words = λ k x e. elim (ℕ_discrete i k) [
      | yes same ↦
          let here = ap (get_elem? (set inuse i v)) same ∙ e in
          omega (
            arith,
            eq_of_some (sym (get_elem?-set_self inuse i v (lt_of_get_elem? inuse i at)) ∙ here),
          )
      | no other ↦ h.words k x (sym (get_elem?-set_ne inuse i k v other) ∙ e)
    ];
  }

-- Setting and clearing the bit `o` of that word.
module _ (inuse : List ℕ) (i w o : ℕ) (at : get_elem? inuse i ≡ some w) (low : o < 32) where
  in_use_at : (k : ℕ) → k / 32 ≡ i → in_use inuse k ≡ has_bit (some w) (k % 32)
  in_use_at k same =
      ap (λ q. has_bit (get_elem? inuse q) (k % 32)) same ∙ ap (λ x. has_bit x (k % 32)) at

  in_use-set :
      (k : ℕ) → in_use (set inuse i (bit_or w (2 ^ o))) k ≡ ((k == i * 32 + o) || in_use inuse k)
  in_use-set k = elim (ℕ_discrete (k / 32) i) [
    | yes same ↦
        let here : (k == i * 32 + o) ≡ (k % 32 == o) = ground arith in
        rw
          (here, set_word inuse i w (bit_or w (2 ^ o)) at k, in_use_at k same, bit_set w o (k % 32))
          (ground arith)
    | no other ↦
        let here : (k == i * 32 + o) ≡ false = ground arith in
        rw (here, set_word inuse i w (bit_or w (2 ^ o)) at k) (ground arith)
  ]

  clear_in_use :
      (k : ℕ)
      → in_use (set inuse i (bit_and w (2 ^ 32 - 1 - 2 ^ o))) k
        ≡ (not (k == i * 32 + o) && in_use inuse k)
  clear_in_use k = elim (ℕ_discrete (k / 32) i) [
    | yes same ↦
        let here : (k == i * 32 + o) ≡ (k % 32 == o) = ground arith in
        rw
          (
            here,
            set_word inuse i w (bit_and w (2 ^ 32 - 1 - 2 ^ o)) at k,
            in_use_at k same,
            bit_cleared 32 w o (k % 32) low (omega arith),
          )
          (ground arith)
    | no other ↦
        let here : (k == i * 32 + o) ≡ false = ground arith in
        rw (here, set_word inuse i w (bit_and w (2 ^ 32 - 1 - 2 ^ o)) at k) (ground arith)
  ]

-- What is known of a record that was taken.
abbrev pub TookRef : List ℕ → List ℕ → ℕ → Type 0
TookRef inuse inuse' j =
    (j < npagerefs)
    × (in_use inuse j ≡ false)
    × ((k : ℕ) → in_use inuse' k ≡ ((k == j) || in_use inuse k))

take_ref_lem :
    (inuse : List ℕ) (i w : ℕ)
    → IsInuse inuse
    → get_elem? inuse i ≡ some w
    → (w == 2 ^ 32 - 1) ≡ false
    → (j : ℕ) × (inuse' : List ℕ) × (take_ref i w inuse ≡ done (some j, inuse'))
      × IsInuse inuse'
      × TookRef inuse inuse' j
unfolding take_ref
take_ref_lem inuse i w h at room = elim (clear_bit_lem 32 0 w) [
  | inl (nothing, all) ↦
      absurd
        (ground (arith, bits_full 32 w (h.words i w at) (λ k p. all k (omega arith) (omega arith))))
  | inr (o, found, low, clear) ↦
      let bound : i < length inuse = lt_of_get_elem? inuse i at in
      (
        i * 32 + o,
        set inuse i (bit_or w (2 ^ o)),
        rw (take_ref, found) refl,
        set-IsInuse inuse i w (bit_or w (2 ^ o)) at h
            (bit_set_bound 32 w o (h.words i w at) (omega arith)),
        (
          omega (arith, h.extent),
          in_use_at inuse i w o at (omega arith) (i * 32 + o) (omega arith)
              ∙ (let off : (i * 32 + o) % 32 ≡ o = omega arith in rw (off, clear) refl),
          λ k. in_use-set inuse i w o at (omega arith) k,
        ),
      )
]

alloc_loop_lem :
    (n i : ℕ) (inuse : List ℕ)
    → IsInuse inuse
    → n + i ≡ inuse_words
    → (alloc_loop n i inuse ≡ done (none, inuse))
      ⊎ ((j : ℕ) × (inuse' : List ℕ) × (alloc_loop n i inuse ≡ done (some j, inuse'))
          × IsInuse inuse'
          × TookRef inuse inuse' j)
unfolding alloc_loop
alloc_loop_lem zero i inuse h len = inl refl
alloc_loop_lem (suc n) i inuse h len =
    let (w, at) = get_elem?_of_lt inuse i (omega (arith, h.extent)) in
    elim (Bool-cases (w == 2 ^ 32 - 1)) [
      | inl full ↦ elim (alloc_loop_lem n (i + 1) inuse h (omega arith)) [
        | inl nothing ↦ inl (rw (alloc_loop, at, full) nothing)
        | inr (j, inuse', e, ok, took) ↦ inr (j, inuse', rw (alloc_loop, at, full) e, ok, took)
      ]
      | inr room ↦
          let (j, inuse', e, ok, took) = take_ref_lem inuse i w h at room in
          inr (j, inuse', rw (alloc_loop, at, room) e, ok, took)
    ]

-- `allocpageref` gives a record that was not in use, and none other changes; or there is none.
pub allocpageref_lem :
    (inuse : List ℕ)
    → IsInuse inuse
    → (allocpageref inuse ≡ done (none, inuse))
      ⊎ ((j : ℕ) × (inuse' : List ℕ) × (allocpageref inuse ≡ done (some j, inuse'))
          × IsInuse inuse'
          × TookRef inuse inuse' j)
unfolding allocpageref
allocpageref_lem inuse h = alloc_loop_lem inuse_words 0 inuse h (omega arith)

-- `freepageref` of a record in use: it is not in use afterwards, and none other changes.
pub freepageref_lem :
    (j : ℕ) (inuse : List ℕ)
    → IsInuse inuse
    → j < npagerefs
    → in_use inuse j ≡ true
    → (inuse' : List ℕ) × (freepageref j inuse ≡ done inuse')
      × IsInuse inuse'
      × ((k : ℕ) → in_use inuse' k ≡ (not (k == j) && in_use inuse k))
unfolding freepageref
freepageref_lem j inuse h small used =
    let (w, at) = get_elem?_of_lt inuse (j / 32) (omega (arith, h.extent)) in
    let whole : j / 32 * 32 + j % 32 ≡ j = omega arith in
    let busy : (bit w (j % 32) == 0) ≡ false =
      ground (arith, in_use_at inuse (j / 32) w (j % 32) at (omega arith) j refl) in
    let tested : (bit_and w (2 ^ (j % 32)) == 0) ≡ false = bit_and_test w (j % 32) ∙ busy in
    (
      set inuse (j / 32) (bit_and w (2 ^ 32 - 1 - 2 ^ (j % 32))),
      rw (freepageref, lt→ltb j npagerefs small, at, tested) refl,
      set-IsInuse inuse (j / 32) w (bit_and w (2 ^ 32 - 1 - 2 ^ (j % 32))) at h
          (bit_cleared_bound 32 w (j % 32) (h.words (j / 32) w at)),
      λ k.
          clear_in_use inuse (j / 32) w (j % 32) at (omega arith) k
          ∙ ap (λ q. not (k == q) && in_use inuse k) whole,
    )
