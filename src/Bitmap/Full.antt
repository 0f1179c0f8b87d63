-- ===== src/Bitmap/Full.antt =====
-- kern/lib/bitmap.c: when bitmap_alloc reports that no bit is free.
use native.Mathlib.Decide.{dec_lt}
use operating_system.Prelude.{
  ℕ, zero, suc, ◌+◌, ◌≤◌, ◌<◌, ◌≡◌, refl, sym, ap, ◌∙◌, ◌*◌, ==_iff, Option-cases, ◌≢◌, ◌↔◌, true,
  false, Option, none, some, arith, length, ltb, ◌==◌, get_elem?, get_elem?_of_lt, Bool-cases, inl,
  inr, done, enospc,
}
use operating_system.Bitmap.Defs.{
  Bitmap, words, word_allbits, find_clear, take_bit, alloc_loop, alloc, bits_per_word,
}

-- Every word from `ix` on has all its bits set.
abbrev pub AllSet : ℕ → Bitmap → Type 0
AllSet ix b = (i : ℕ) → ix ≤ i → i < length b.v → get_elem? b.v i ≡ some word_allbits

alloc_loop_full :
    (n ix : ℕ) (b : Bitmap)
    → n + ix ≡ length b.v
    → AllSet ix b
    → alloc_loop n ix b ≡ done (enospc, none, b)
unfolding alloc_loop
alloc_loop_full zero ix b len full = refl
alloc_loop_full (suc n) ix b len full =
    let here = full ix (omega arith) (omega arith) in
    let rest = alloc_loop_full n (ix + 1) b (omega arith) (λ i ge lt. full i (omega arith) lt) in
    rw (alloc_loop, here) rest

-- A round at a full word, and a round at another one.
module _ (n ix w : ℕ) (b : Bitmap) (at : get_elem? b.v ix ≡ some w) where
  pub alloc_loop_next :
      (w == word_allbits) ≡ true → alloc_loop (suc n) ix b ≡ alloc_loop n (ix + 1) b
  unfolding alloc_loop
  alloc_loop_next same = rw (alloc_loop, at, same)

  pub alloc_loop_here : (w == word_allbits) ≡ false → alloc_loop (suc n) ix b ≡ take_bit ix w b
  unfolding alloc_loop
  alloc_loop_here other = rw (alloc_loop, at, other)

take_bit_ok : (ix w : ℕ) (b b' : Bitmap) (r : Option ℕ) → take_bit ix w b ≢ done (enospc, r, b')
unfolding take_bit
take_bit_ok ix w b b' r e = elim (Option-cases (find_clear bits_per_word 0 w)) [
  | inl nothing ↦ ground (arith, nothing, e)
  | inr (offset, found) ↦ elim (Bool-cases (ltb (ix * bits_per_word + offset) b.nbits)) [
    | inl good ↦ ground (arith, found, good, e)
    | inr bad ↦ ground (arith, found, bad, e)
  ]
]

full_of_alloc_loop :
    (n ix : ℕ) (b b' : Bitmap) (r : Option ℕ)
    → n + ix ≡ length b.v
    → alloc_loop n ix b ≡ done (enospc, r, b')
    → AllSet ix b
full_of_alloc_loop zero ix b b' r len e = λ i ge lt. absurd (omega arith)
full_of_alloc_loop (suc n) ix b b' r len e =
    let (w, at) = get_elem?_of_lt b.v ix (omega arith) in
    elim (Bool-cases (w == word_allbits)) [
      | inl same ↦
          let rest =
            full_of_alloc_loop n (ix + 1) b b' r (omega arith)
              (sym (alloc_loop_next n ix w b at same) ∙ e) in
          λ i ge lt. elim (dec_lt ix i) [
            | yes later ↦ rest i (omega arith) lt
            | no here ↦
                ap (get_elem? b.v) (omega arith) ∙ at ∙ ap some ((==_iff w word_allbits).0 same)
          ]
      | inr other ↦ absurd (take_bit_ok ix w b b' r (sym (alloc_loop_here n ix w b at other) ∙ e))
    ]

-- `bitmap_alloc`, in a bitmap with as many words as its bits need, reports ENOSPC, with no index and
-- the bitmap as it was, exactly if every bit of every word is set.
pub alloc-AllSet :
    (b : Bitmap) → length b.v ≡ words b.nbits → (alloc b ≡ done (enospc, none, b)) ↔ AllSet 0 b
unfolding alloc
alloc-AllSet b len = (
  full_of_alloc_loop (words b.nbits) 0 b b none (omega arith),
  alloc_loop_full (words b.nbits) 0 b (omega arith),
)
