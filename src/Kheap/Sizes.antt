-- ===== src/Kheap/Sizes.antt =====
-- kern/lib/kheap.c: the type of block for a size.
use operating_system.Prelude.{
  ℕ, zero, suc, ◌+◌, ◌≤◌, ◌<◌, ◌≡◌, ◌⊎◌, inl, inr, refl, ap, ◌∙◌, List, [], ◌∷◌, some, get_elem?,
  arith, leb, leb→le, Bool-cases, done, false, eq_of_some, lt_of_get_elem?, get_elem?_of_lt,
}
use operating_system.Kheap.Defs.{find_size, blocktype, sizes, size_of, nsizes}

find_size_lem :
    (ss : List ℕ) (i sz : ℕ)
    → ((b : ℕ) × (s : ℕ) × (find_size ss i sz ≡ done (i + b))
        × (get_elem? ss b ≡ some s)
        × (sz ≤ s)
        × ((c t : ℕ) → c < b → get_elem? ss c ≡ some t → t < sz))
      ⊎ ((c t : ℕ) → get_elem? ss c ≡ some t → t < sz)
unfolding find_size
find_size_lem [] i sz = inr (λ c t e. cc)
find_size_lem (s ∷ ss) i sz = elim (Bool-cases (leb sz s)) [
  | inl fits ↦ inl (
    0,
    s,
    rw fits (ap done (omega arith)),
    refl,
    leb→le sz s fits,
    λ c t lt. absurd (omega arith),
  )
  | inr small ↦ elim (find_size_lem ss (i + 1) sz) [
    | inl (b, s', e, at, room, first) ↦ inl (
      suc b,
      s',
      rw small (e ∙ ap done (omega arith)),
      at,
      room,
      λ c t lt at'. before s ss b c t small first lt at',
    )
    | inr none_fits ↦ inr (λ c t at. past s ss c t small none_fits at)
  ]
]
  where
    past :
        (s : ℕ) (ss : List ℕ) (c t : ℕ)
        → leb sz s ≡ false
        → ((c t : ℕ) → get_elem? ss c ≡ some t → t < sz)
        → get_elem? (s ∷ ss) c ≡ some t
        → t < sz
    past s ss zero t small h at = ground (arith, eq_of_some at)
    past s ss (suc c) t small h at = h c t at

    before :
        (s : ℕ) (ss : List ℕ) (b c t : ℕ)
        → leb sz s ≡ false
        → ((c t : ℕ) → c < b → get_elem? ss c ≡ some t → t < sz)
        → c < suc b
        → get_elem? (s ∷ ss) c ≡ some t
        → t < sz
    before s ss b zero t small h lt at = ground (arith, eq_of_some at)
    before s ss b (suc c) t small h lt at = h c t (omega arith) at

size_of_at : (b s : ℕ) → get_elem? sizes b ≡ some s → size_of b ≡ s
unfolding size_of
size_of_at b s at = rw (size_of, at) refl

-- A size of 2048 or less has a type of block, the first that is large enough.
pub blocktype_lem :
    (sz : ℕ)
    → sz ≤ 2048
    → (b : ℕ) × (blocktype sz ≡ done b)
      × (b < nsizes)
      × (sz ≤ size_of b)
      × ((c : ℕ) → c < b → size_of c < sz)
unfolding blocktype
blocktype_lem sz h = elim (find_size_lem sizes 0 sz) [
  | inl (b, s, e, at, room, first) ↦
      let bound : b < nsizes = lt_of_get_elem? sizes b at in
      (
        b,
        e ∙ ap done (omega arith),
        bound,
        omega (arith, size_of_at b s at),
        λ c lt.
            let (t, at_c) = get_elem?_of_lt sizes c (omega arith) in
            omega (arith, size_of_at c t at_c, first c t lt at_c),
      )
  | inr none_fits ↦ absurd (omega (arith, none_fits 7 2048 refl))
]
