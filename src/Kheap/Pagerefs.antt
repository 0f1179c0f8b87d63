-- ===== src/Kheap/Pagerefs.antt =====
-- kern/lib/kheap.c, the pool of page records: `pagerefs_inuse` is a list of words.
use Prim.Native.Nat.{bit_and, bit_or}
use operating_system.Prelude.{
  ℕ, zero, suc, ◌+◌, ◌-◌, ◌*◌, ◌/◌, ◌%◌, ◌^◌, not, Option, none, some, List, ltb, ◌==◌,
  if◌then◌else◌, get_elem?, set, Outcome, done, halt, ◌>>◌, assert,
}

abbrev pub npagerefs : ℕ
npagerefs = 256

abbrev pub inuse_words : ℕ
inuse_words = 8

-- The inner loop of `allocpageref` from the bit `j` on, with `n` bits left
unfoldable pub clear_bit : ℕ → ℕ → ℕ → Option ℕ
clear_bit zero j w = none
clear_bit (suc n) j w =
    let later = clear_bit n (j + 1) w in if bit_and w (2 ^ j) == 0 then some j else later

-- A word that is not full: no clear bit in it is the failure of `assert(0)`.
unfoldable pub take_ref : ℕ → ℕ → List ℕ → Outcome (Option ℕ × List ℕ)
unfolding clear_bit
take_ref i w inuse = elim (clear_bit 32 0 w) [
  | none ↦ halt
  | some j ↦ done (some (i * 32 + j), set inuse i (bit_or w (2 ^ j)))
]

-- `allocpageref` from the word `i` on, with `n` words left
unfoldable pub alloc_loop : ℕ → ℕ → List ℕ → Outcome (Option ℕ × List ℕ)
unfolding take_ref
alloc_loop zero i inuse = done (none, inuse)
alloc_loop (suc n) i inuse =
    let later = alloc_loop n (i + 1) inuse in
    elim (get_elem? inuse i) [
      | none ↦ halt
      | some w ↦ if w == 2 ^ 32 - 1 then later else take_ref i w inuse
    ]

unfoldable pub allocpageref : List ℕ → Outcome (Option ℕ × List ℕ)
unfolding alloc_loop
allocpageref inuse = alloc_loop inuse_words 0 inuse

unfoldable pub freepageref : ℕ → List ℕ → Outcome (List ℕ)
freepageref j inuse = assert (ltb j npagerefs) >> elim (get_elem? inuse (j / 32)) [
  | none ↦ halt
  | some w ↦
      assert (not (bit_and w (2 ^ (j % 32)) == 0))
      >> done (set inuse (j / 32) (bit_and w (2 ^ 32 - 1 - 2 ^ (j % 32))))
]
