-- ===== src/Prelude/Bits.antt =====
-- Bits of machine words: `bit w i` is the bit `i`, and what `|` and `&` with masks make of it.
use Prim.Native.Nat.{
  ℕ, zero, suc, ◌+◌, ◌-◌, ◌*◌, ◌/◌, ◌%◌, ◌^◌, ◌≤◌, ◌<◌, min, max, digits, bit_and, bit_or,
  bit_and-bitwise, bit_or-bitwise,
}
use mathlib.Core.Path.{◌≡◌, refl, ap}
use mathlib.Core.Bool.{false}
use native.Mathlib.Decide.{ℕ_discrete}
use native.Mathlib.Nat.{two-pow-succ}
use native.Mathlib.Omega.{arith}
use operating_system.Prelude.Tests.{ltb, ◌==◌, if◌then◌else◌}

abbrev pub bit : ℕ → ℕ → ℕ
bit w zero = w % 2
bit w (suc i) = bit (w / 2) i

-- More digits than the first number has change nothing.
digits_enough :
    (z : ℕ → ℕ) (f : ℕ → ℕ → ℕ) (n m a b : ℕ) → a ≤ n → a ≤ m → digits z f n a b ≡ digits z f m a b
digits_enough z f zero zero a b p q = refl
digits_enough z f zero (suc m) zero b p q = refl
digits_enough z f zero (suc m) (suc a) b p q = absurd (omega arith)
digits_enough z f (suc n) zero zero b p q = refl
digits_enough z f (suc n) zero (suc a) b p q = absurd (omega arith)
digits_enough z f (suc n) (suc m) zero b p q = refl
digits_enough z f (suc n) (suc m) (suc a) b p q =
    omega (arith, digits_enough z f n m (suc a / 2) (b / 2) (omega arith) (omega arith))

and_step : (a b : ℕ) → bit_and a b ≡ bit_and (a / 2) (b / 2) * 2 + min (a % 2) (b % 2)
and_step zero b = omega (arith, bit_and-bitwise 0 b, bit_and-bitwise 0 (b / 2))
and_step (suc a) b = omega (
  arith,
  bit_and-bitwise (suc a) b,
  bit_and-bitwise (suc a / 2) (b / 2),
  digits_enough (λ b. zero) min a (suc a / 2) (suc a / 2) (b / 2) (omega arith) (omega arith),
)

or_step : (a b : ℕ) → bit_or a b ≡ bit_or (a / 2) (b / 2) * 2 + max (a % 2) (b % 2)
or_step zero b = omega (arith, bit_or-bitwise 0 b, bit_or-bitwise 0 (b / 2))
or_step (suc a) b = omega (
  arith,
  bit_or-bitwise (suc a) b,
  bit_or-bitwise (suc a / 2) (b / 2),
  digits_enough (λ b. b) max a (suc a / 2) (suc a / 2) (b / 2) (omega arith) (omega arith),
)

-- Each operation works bit by bit.
pub bit-bit_and : (i a b : ℕ) → bit (bit_and a b) i ≡ min (bit a i) (bit b i)
bit-bit_and zero a b = omega (arith, and_step a b)
bit-bit_and (suc i) a b =
    let half : bit_and a b / 2 ≡ bit_and (a / 2) (b / 2) = omega (arith, and_step a b) in
    rw half (bit-bit_and i (a / 2) (b / 2))

pub bit-bit_or : (i a b : ℕ) → bit (bit_or a b) i ≡ max (bit a i) (bit b i)
bit-bit_or zero a b = omega (arith, or_step a b)
bit-bit_or (suc i) a b =
    let half : bit_or a b / 2 ≡ bit_or (a / 2) (b / 2) = omega (arith, or_step a b) in
    rw half (bit-bit_or i (a / 2) (b / 2))

bit-zero : (i : ℕ) → bit 0 i ≡ 0
bit-zero zero = refl
bit-zero (suc i) = bit-zero i

pub bit_bound : (w i : ℕ) → bit w i < 2
bit_bound w zero = omega arith
bit_bound w (suc i) = bit_bound (w / 2) i

pub bit-pow : (k i : ℕ) → bit (2 ^ k) i ≡ (if i == k then 1 else 0)
bit-pow zero zero = refl
bit-pow zero (suc i) = rw (bit-zero i) (ground arith)
bit-pow (suc k) zero =
    let even : 2 ^ suc k % 2 ≡ 0 = omega (arith, two-pow-succ k) in rw even (ground arith)
bit-pow (suc k) (suc i) =
    let half : 2 ^ suc k / 2 ≡ 2 ^ k = omega (arith, two-pow-succ k) in
    rw half (ground (arith, bit-pow k i))

-- A number without bits is 0, and one without bits from `n` on is below 2 ^ n.
bits_zero : (n w : ℕ) → w ≤ n → ((i : ℕ) → bit w i ≡ 0) → w ≡ 0
bits_zero zero w h z = omega arith
bits_zero (suc n) w h z = omega (arith, z 0, bits_zero n (w / 2) (omega arith) (λ i. z (suc i)))

pub bits_below : (n w : ℕ) → ((i : ℕ) → n ≤ i → bit w i ≡ 0) → w < 2 ^ n
bits_below zero w z = omega (arith, bits_zero w w (omega arith) (λ i. z i (omega arith)))
bits_below (suc n) w z =
    omega (arith, two-pow-succ n, bits_below n (w / 2) (λ i h. z (suc i) (omega arith)))

pub bit_above : (n w i : ℕ) → w < 2 ^ n → n ≤ i → bit w i ≡ 0
bit_above zero w i h le = let none_left : w ≡ 0 = omega arith in rw none_left (bit-zero i)
bit_above (suc n) w zero h le = absurd (omega arith)
bit_above (suc n) w (suc i) h le =
    bit_above n (w / 2) i (omega (arith, two-pow-succ n)) (omega arith)

-- A word that has all its bits is the largest.
pub bits_full : (n w : ℕ) → w < 2 ^ n → ((i : ℕ) → i < n → bit w i ≡ 1) → w ≡ 2 ^ n - 1
bits_full zero w h all = omega arith
bits_full (suc n) w h all = omega (
  arith,
  two-pow-succ n,
  all 0 (omega arith),
  bits_full n (w / 2) (omega (arith, two-pow-succ n)) (λ i lt. all (suc i) (omega arith)),
)

bit_ones : (n i : ℕ) → bit (2 ^ n - 1) i ≡ (if ltb i n then 1 else 0)
bit_ones zero i = rw (bit-zero i) (ground arith)
bit_ones (suc n) zero =
    let odd : (2 ^ suc n - 1) % 2 ≡ 1 =
      omega (arith, two-pow-succ n, bits_below n 0 (λ i h. bit-zero i)) in
    rw odd (ground arith)
bit_ones (suc n) (suc i) =
    let half : (2 ^ suc n - 1) / 2 ≡ 2 ^ n - 1 = omega (arith, two-pow-succ n) in
    rw half (ground (arith, bit_ones n i))

pow_lt : (k n : ℕ) → k < n → 2 ^ k < 2 ^ n
pow_lt k n h = bits_below n (2 ^ k) (λ i le. ground (arith, bit-pow k i))

-- `~k` at the width n
bit_but : (n k i : ℕ) → k < n → i < n → bit (2 ^ n - 1 - 2 ^ k) i ≡ (if i == k then 0 else 1)
bit_but zero k i p q = absurd (omega arith)
bit_but (suc n) zero zero p q =
    let even : (2 ^ suc n - 1 - 1) % 2 ≡ 0 = omega (arith, two-pow-succ n) in rw even (ground arith)
bit_but (suc n) zero (suc i) p q =
    let half : (2 ^ suc n - 1 - 1) / 2 ≡ 2 ^ n - 1 = omega (arith, two-pow-succ n) in
    rw half (ground (arith, bit_ones n i))
bit_but (suc n) (suc k) zero p q =
    let odd : (2 ^ suc n - 1 - 2 ^ suc k) % 2 ≡ 1 =
      omega (arith, two-pow-succ n, two-pow-succ k, pow_lt k n (omega arith)) in
    rw odd (ground arith)
bit_but (suc n) (suc k) (suc i) p q =
    let half : (2 ^ suc n - 1 - 2 ^ suc k) / 2 ≡ 2 ^ n - 1 - 2 ^ k =
      omega (arith, two-pow-succ n, two-pow-succ k, pow_lt k n (omega arith)) in
    rw half (ground (arith, bit_but n k i))

-- The test of a bit by `w & (1 << k)`
pub bit_and_test : (w k : ℕ) → (bit_and w (2 ^ k) == 0) ≡ (bit w k == 0)
bit_and_test w k = elim (ℕ_discrete (bit w k) 0) [
  | yes clear ↦
      let gone : bit_and w (2 ^ k) ≡ 0 =
        bits_zero (bit_and w (2 ^ k)) (bit_and w (2 ^ k)) (omega arith) (λ i.
          elim (ℕ_discrete i k) [
            | yes same ↦ omega (arith, bit-bit_and i w (2 ^ k), ap (bit w) same)
            | no other ↦ ground (arith, bit-bit_and i w (2 ^ k), bit-pow k i)
          ]) in
      rw (gone, clear) refl
  | no is_set ↦
      let test : (bit w k == 0) ≡ false = ground arith in
      elim (ℕ_discrete (bit_and w (2 ^ k)) 0) [
        | yes none_left ↦ absurd (
            ground (
              arith,
              bit-bit_and k w (2 ^ k),
              bit-pow k k,
              ap (λ v. bit v k) none_left,
              bit-zero k,
            ))
        | no some_left ↦ rw test (ground arith)
      ]
]

-- `w |= 1 << k`
pub bit_set : (w k i : ℕ) → bit (bit_or w (2 ^ k)) i ≡ (if i == k then 1 else bit w i)
bit_set w k i = rw (bit-bit_or i w (2 ^ k), bit-pow k i) (ground (arith, bit_bound w i))

pub bit_set_bound : (n w k : ℕ) → w < 2 ^ n → k < n → bit_or w (2 ^ k) < 2 ^ n
bit_set_bound n w k h lt =
    bits_below n (bit_or w (2 ^ k)) (λ i le. ground (arith, bit_set w k i, bit_above n w i h le))

-- `w &= ~(1 << k)`
pub bit_cleared :
    (n w k i : ℕ)
    → k < n
    → i < n
    → bit (bit_and w (2 ^ n - 1 - 2 ^ k)) i ≡ (if i == k then 0 else bit w i)
bit_cleared n w k i p q =
    rw (bit-bit_and i w (2 ^ n - 1 - 2 ^ k), bit_but n k i p q) (ground (arith, bit_bound w i))

pub bit_cleared_bound : (n w k : ℕ) → w < 2 ^ n → bit_and w (2 ^ n - 1 - 2 ^ k) < 2 ^ n
bit_cleared_bound n w k h =
    bits_below n (bit_and w (2 ^ n - 1 - 2 ^ k))
      (λ i le. omega (arith, bit-bit_and i w (2 ^ n - 1 - 2 ^ k), bit_above n w i h le))
