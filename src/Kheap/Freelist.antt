-- ===== src/Kheap/Freelist.antt =====
-- kern/lib/kheap.c: the list of the free blocks of a page, which is linked through the blocks.
use mathlib.Core.Path.{subst}
use native.Mathlib.Decide.{ℕ_discrete}
use native.Mathlib.Nat.{mul-mod_left}
use operating_system.Prelude.{
  ℕ, zero, suc, ◌+◌, ◌*◌, ◌/◌, ◌%◌, ◌^◌, ◌≤◌, ◌<◌, ◌≡◌, refl, sym, ap, ◌∙◌, Bool, true, false, ◌||◌,
  List, [], ◌∷◌, arith, ◌==◌, if◌then◌else◌, length, page_size,
}
use operating_system.Kheap.Defs.{Pageref, size_of, nsizes, page_of, type_of, invalid_offset}

abbrev pub member : ℕ → List ℕ → Bool
member x [] = false
member x (y ∷ ys) = (x == y) || member x ys

abbrev pub NoRepeat : List ℕ → Type 0
NoRepeat [] = Unit {0}
NoRepeat (x ∷ xs) = (member x xs ≡ false) × NoRepeat xs

-- How many numbers below `n` pass a test.
count_below : ℕ → (ℕ → Bool) → ℕ
count_below zero p = 0
count_below (suc n) p = (if p n then 1 else 0) + count_below n p

count_below_bound : (n : ℕ) (p : ℕ → Bool) → count_below n p ≤ n
unfolding count_below
count_below_bound zero p = omega arith
count_below_bound (suc n) p = ground (arith, count_below_bound n p)

count_below_same :
    (n x : ℕ) (p : ℕ → Bool) → n ≤ x → count_below n (λ k. (k == x) || p k) ≡ count_below n p
unfolding count_below
count_below_same zero x p h = refl
count_below_same (suc n) x p h = ground (arith, count_below_same n x p)

count_below_insert :
    (n x : ℕ) (p : ℕ → Bool)
    → x < n
    → p x ≡ false
    → count_below n (λ k. (k == x) || p k) ≡ suc (count_below n p)
unfolding count_below
count_below_insert zero x p h e = absurd (omega arith)
count_below_insert (suc n) x p h e = elim (ℕ_discrete n x) [
  | yes same ↦
      let here : (n == x) ≡ true = ground arith in
      let out : p n ≡ false = ap p same ∙ e in
      rw (here, out) (omega (arith, count_below_same n x p (omega arith)))
  | no other ↦
      let here : (n == x) ≡ false = ground arith in
      rw (here, count_below_insert n x p (omega arith) e) (omega arith)
]

count_below-member :
    (n : ℕ) (is : List ℕ)
    → NoRepeat is
    → ((i : ℕ) → member i is ≡ true → i < n)
    → count_below n (λ k. member k is) ≡ length is
unfolding count_below
count_below-member n [] h lt = none_below n
  where
    none_below : (n : ℕ) → count_below n (λ k. false) ≡ 0
    none_below zero = refl
    none_below (suc n) = omega (arith, none_below n)
count_below-member n (x ∷ xs) h lt =
    let rest = count_below-member n xs h.1 (λ i m. lt i (ground (arith, m))) in
    count_below_insert n x (λ k. member k xs) (lt x (ground arith)) h.0 ∙ ap suc rest

-- A list of different numbers below `n` that misses one of them is shorter.
pub length_lt_of_missing :
    (n i : ℕ) (is : List ℕ)
    → NoRepeat is
    → ((k : ℕ) → member k is ≡ true → k < n)
    → i < n
    → member i is ≡ false
    → length is < n
length_lt_of_missing n i is h lt small missing = omega (
  arith,
  count_below-member n is h lt,
  count_below_insert n i (λ k. member k is) small missing,
  count_below_bound n (λ k. (k == i) || member k is),
)

-- The sizes divide a page.
pub record IsSize (size : ℕ) : Type 0 where
  pub low : 16 ≤ size
  pub high : size ≤ 2048
  pub whole : page_size / size * size ≡ page_size
  pub fours : size / 4 * 4 ≡ size
  pub many : 2 ≤ page_size / size
  pub few : page_size / size ≤ 256

pub size_of-IsSize : (blktype : ℕ) → blktype < nsizes → IsSize (size_of blktype)
unfolding size_of
size_of-IsSize zero h = omega arith
size_of-IsSize (suc zero) h = omega arith
size_of-IsSize (suc (suc zero)) h = omega arith
size_of-IsSize (suc (suc (suc zero))) h = omega arith
size_of-IsSize (suc (suc (suc (suc zero)))) h = omega arith
size_of-IsSize (suc (suc (suc (suc (suc zero))))) h = omega arith
size_of-IsSize (suc (suc (suc (suc (suc (suc zero)))))) h = omega arith
size_of-IsSize (suc (suc (suc (suc (suc (suc (suc zero))))))) h = omega arith
size_of-IsSize (suc (suc (suc (suc (suc (suc (suc (suc k)))))))) h = absurd (omega arith)

module _ (size : ℕ) (h : IsSize size) where
  -- A block ends where the next one begins, or before.
  pub block_end : (i k : ℕ) → i < k → i * size + size ≤ k * size
  block_end i k lt = grind arith

  pub block_inside : (i : ℕ) → i < page_size / size → i * size + size ≤ page_size
  block_inside i lt = omega (arith, block_end i (page_size / size) lt, h.whole)

  pub block-mod : (i : ℕ) → i * size % size ≡ 0
  block-mod i = mul-mod_left i size

-- The free blocks from the address `start` on, by their numbers
abbrev pub Chain : (ℕ → ℕ) → ℕ → ℕ → ℕ → List ℕ → Type 0
Chain load page size start [] = start ≡ 0
Chain load page size start (i ∷ is) =
    (start ≡ page + i * size) × Chain load page size (load (page + i * size)) is

pub Chain-frame :
    (load load' : ℕ → ℕ) (page size start : ℕ) (is : List ℕ)
    → ((i : ℕ) → member i is ≡ true → load' (page + i * size) ≡ load (page + i * size))
    → Chain load page size start is
    → Chain load' page size start is
Chain-frame load load' page size start [] same c = c
Chain-frame load load' page size start (i ∷ is) same (here, rest) = (
  here,
  subst (λ a. Chain load' page size a is) (sym (same i (ground arith)))
      (Chain-frame load load' page size (load (page + i * size)) is
        (λ k m. same k (ground (arith, m))) rest),
)

abbrev pub size_in : Pageref → ℕ
size_in pr = size_of (type_of pr)

-- The number of blocks of a page
abbrev pub blocks_in : Pageref → ℕ
blocks_in pr = page_size / size_of (type_of pr)

abbrev pub block : Pageref → ℕ → ℕ
block pr i = page_of pr + i * size_of (type_of pr)

-- The head of the free list
abbrev pub start_of : Pageref → ℕ
start_of pr = if pr.freelist_offset == invalid_offset then 0 else page_of pr + pr.freelist_offset

-- The page record `pr` has exactly the blocks `is` free, in this order.
pub record Frees (load : ℕ → ℕ) (pr : Pageref) (is : List ℕ) : Type 0 where
  pub base : 0 < page_of pr
  pub top : page_of pr + page_size < 2 ^ 32
  pub kind : type_of pr < nsizes
  pub chain : Chain load (page_of pr) (size_of (type_of pr)) (start_of pr) is
  pub count : pr.nfree ≡ length is
  pub inside : (i : ℕ) → member i is ≡ true → i < blocks_in pr
  pub apart : NoRepeat is

pub Frees-frame :
    {load load' : ℕ → ℕ} {pr : Pageref} {is : List ℕ}
    → ((i : ℕ) → i < blocks_in pr → load' (block pr i) ≡ load (block pr i))
    → Frees load pr is
    → Frees load' pr is
Frees-frame {load} {load'} {pr} {is} same f = record {
  base = f.base;
  top = f.top;
  kind = f.kind;
  chain =
      Chain-frame load load' (page_of pr) (size_of (type_of pr)) (start_of pr) is
        (λ i m. same i (f.inside i m)) f.chain;
  count = f.count;
  inside = f.inside;
  apart = f.apart;
}
