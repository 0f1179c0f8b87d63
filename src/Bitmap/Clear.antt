-- ===== src/Bitmap/Clear.antt =====
-- kern/lib/bitmap.c: the bit that bitmap_alloc gives was clear.
use Prim.Native.Nat.{bit_and}
use operating_system.Prelude.{
  ℕ, zero, suc, ◌+◌, ◌<◌, ◌≡◌, sym, ap, ◌∙◌, ◌*◌, ◌/◌, ◌%◌, ==_iff, Option-cases, some, arith, ltb,
  ◌==◌, get_elem?, Bool-cases, inl, inr, done, ok,
}
use operating_system.Bitmap.Defs.{
  Bitmap, words, word_allbits, find_clear, take_bit, alloc_loop, alloc, bits_per_word, isset,
  word_at, mask,
}
use operating_system.Bitmap.Full.{alloc_loop_next, alloc_loop_here}

find_clear_lem :
    (n from w : ℕ) {o : ℕ}
    → find_clear n from w ≡ some o
    → (o < from + n) × (bit_and w (mask o) ≡ 0)
unfolding find_clear
find_clear_lem zero from w e = cc
find_clear_lem (suc n) from w {o} e = elim (Bool-cases (bit_and w (mask from) == 0)) [
  | inl clear ↦
      let same : from ≡ o = ground (arith, clear, e) in
      (omega arith, ap (λ k. bit_and w (mask k)) (sym same) ∙ (==_iff _ _).0 clear)
  | inr busy ↦
      let later = find_clear_lem n (from + 1) w {o = o} (ground (arith, busy, e)) in
      (omega (arith, later.0), later.1)
]

-- The word in which an allocation takes its bit.
alloc_loop_word :
    (n ix : ℕ) (b b' : Bitmap) (i : ℕ)
    → alloc_loop n ix b ≡ done (ok, some i, b')
    → (jx : ℕ) × (w : ℕ) × (get_elem? b.v jx ≡ some w) × (take_bit jx w b ≡ done (ok, some i, b'))
unfolding alloc_loop
alloc_loop_word zero ix b b' i e = cc
alloc_loop_word (suc n) ix b b' i e = elim (Option-cases (get_elem? b.v ix)) [
  | inl past ↦ ground (arith, past, e)
  | inr (w, at) ↦ elim (Bool-cases (w == word_allbits)) [
    | inl full ↦ alloc_loop_word n (ix + 1) b b' i (sym (alloc_loop_next n ix w b at full) ∙ e)
    | inr other ↦ (ix, w, at, sym (alloc_loop_here n ix w b at other) ∙ e)
  ]
]

take_bit_clear :
    (jx w : ℕ) (b b' : Bitmap) (i : ℕ)
    → take_bit jx w b ≡ done (ok, some i, b')
    → (o : ℕ) × (o < 8) × (i ≡ jx * 8 + o) × (bit_and w (mask o) ≡ 0)
unfolding take_bit
take_bit_clear jx w b b' i e = elim (Option-cases (find_clear bits_per_word 0 w)) [
  | inl nothing ↦ ground (arith, nothing, e)
  | inr (o, found) ↦
      let (low, clear) = find_clear_lem bits_per_word 0 w found in
      elim (Bool-cases (ltb (jx * bits_per_word + o) b.nbits)) [
        | inl good ↦ (o, low, ground (arith, found, good, e), clear)
        | inr bad ↦ ground (arith, found, bad, e)
      ]
]

-- The bit that `bitmap_alloc` gives was clear.
pub alloc-isset : (b b' : Bitmap) (i : ℕ) → alloc b ≡ done (ok, some i, b') → isset b i ≡ done 0
unfolding alloc isset word_at
alloc-isset b b' i e =
    let (jx, w, at, taken) = alloc_loop_word (words b.nbits) 0 b b' i e in
    let (o, low, place, clear) = take_bit_clear jx w b b' i taken in
    let here : get_elem? b.v (i / 8) ≡ some w = ap (get_elem? b.v) (omega arith) ∙ at in
    let bit_of : i % 8 ≡ o = omega arith in
    rw (word_at, here) (ap done (ap (λ k. bit_and w (mask k)) bit_of ∙ clear))
