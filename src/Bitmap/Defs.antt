-- ===== src/Bitmap/Defs.antt =====
-- The functions of kern/lib/bitmap.c, but for bitmap_destroy, which only frees.
use Prim.Native.Nat.{bit_and, bit_or}
use operating_system.Prelude.{
  ℕ, zero, suc, ◌+◌, ◌-◌, ◌*◌, ◌/◌, ◌%◌, ◌^◌, Bool, not, ◌&&◌, Option, none, some, List, ltb, ◌==◌,
  if◌then◌else◌, get_elem?, set, replicate, modify, Outcome, done, halt, ◌>>=◌, ◌>>◌, assert, Code,
  ok, enospc, word,
}

-- `struct bitmap`: the words are bytes.
pub record Bitmap : Type 0 where
  pub nbits : ℕ
  pub v : List ℕ

abbrev pub bits_per_word : ℕ
bits_per_word = 8

abbrev pub word_allbits : ℕ
word_allbits = 255

-- `DIVROUNDUP(nbits, BITS_PER_WORD)` on 32-bit words
abbrev pub words : ℕ → ℕ
words nbits = word (nbits + 7) / bits_per_word

-- `((WORD_TYPE)1)<<offset`
abbrev pub mask : ℕ → ℕ
mask offset = 2 ^ offset % 256

-- `for (j=overbits; j<BITS_PER_WORD; j++) b->v[ix] |= ((WORD_TYPE)1 << j);`, with `n` rounds left
unfoldable pub set_from : ℕ → ℕ → ℕ → ℕ
set_from zero j w = w
set_from (suc n) j w = set_from n (j + 1) (bit_or w (mask j))

-- Leftover bits at the end are marked in use.
unfoldable pub mark_leftover : ℕ → List ℕ → Outcome (List ℕ)
unfolding set_from
mark_leftover nbits v =
    let ix = words nbits - 1 in
    let overbits = nbits - ix * bits_per_word in
    let marked =
      (assert (nbits / bits_per_word == ix)
        >> (assert (ltb 0 overbits && ltb overbits bits_per_word)
            >> done (modify v ix (set_from (bits_per_word - overbits) overbits)))) in
    if ltb (nbits / bits_per_word) (words nbits) then marked else done v

-- `bitmap_create`, with the answers of the two calls of kmalloc
unfoldable pub create : Bool → Bool → ℕ → Outcome (Option Bitmap)
unfolding mark_leftover
create mem mem_v nbits =
    let made =
      (mark_leftover nbits (replicate (words nbits) 0) >>= λ v.
      done (some (record { nbits = nbits; v = v }))) in
    if mem && mem_v then made else done none

-- `bitmap_getdata`
unfoldable pub getdata : Bitmap → List ℕ
getdata b = b.v

-- The search for a clear bit in a word, from the bit `offset` on, with `n` bits left.
unfoldable pub find_clear : ℕ → ℕ → ℕ → Option ℕ
find_clear zero offset w = none
find_clear (suc n) offset w =
    let later = find_clear n (offset + 1) w in
    if bit_and w (mask offset) == 0 then some offset else later

-- A word that is not full: no clear bit in it is the failure of `assert(0)`.
unfoldable pub take_bit : ℕ → ℕ → Bitmap → Outcome (Code × Option ℕ × Bitmap)
unfolding find_clear
take_bit ix w b = elim (find_clear bits_per_word 0 w) [
  | none ↦ halt
  | some offset ↦
      assert (ltb (ix * bits_per_word + offset) b.nbits)
      >> done (
        ok,
        some (ix * bits_per_word + offset),
        record b { v = set b.v ix (bit_or w (mask offset)) },
      )
]

-- `bitmap_alloc` from the word `ix` on, with `n` words left
unfoldable pub alloc_loop : ℕ → ℕ → Bitmap → Outcome (Code × Option ℕ × Bitmap)
unfolding take_bit
alloc_loop zero ix b = done (enospc, none, b)
alloc_loop (suc n) ix b =
    let later = alloc_loop n (ix + 1) b in
    elim (get_elem? b.v ix) [
      | none ↦ halt
      | some w ↦ if w == word_allbits then later else take_bit ix w b
    ]

unfoldable pub alloc : Bitmap → Outcome (Code × Option ℕ × Bitmap)
unfolding alloc_loop
alloc b = alloc_loop (words b.nbits) 0 b

-- `bitmap_translate`
abbrev pub translate : ℕ → ℕ × ℕ
translate bitno = (bitno / bits_per_word, mask (bitno % bits_per_word))

unfoldable pub word_at : Bitmap → ℕ → Outcome ℕ
word_at b ix = elim (get_elem? b.v ix) [ none ↦ halt | some w ↦ done w ]

-- `bitmap_isset`
unfoldable pub isset : Bitmap → ℕ → Outcome ℕ
unfolding word_at
isset b index = do w ← word_at b (translate index).0; done (bit_and w (translate index).1)

-- `bitmap_mark`
unfoldable pub mark : Bitmap → ℕ → Outcome Bitmap
unfolding word_at
mark b index = do
  assert (ltb index b.nbits)
  w ← word_at b (translate index).0
  assert (bit_and w (translate index).1 == 0)
  done (record b { v = set b.v (translate index).0 (bit_or w (translate index).1) })

-- `bitmap_unmark`
unfoldable pub unmark : Bitmap → ℕ → Outcome Bitmap
unfolding word_at
unmark b index = do
  assert (ltb index b.nbits)
  w ← word_at b (translate index).0
  assert (not (bit_and w (translate index).1 == 0))
  done (record b {
    v = set b.v (translate index).0 (bit_and w (word_allbits - (translate index).1));
  })
