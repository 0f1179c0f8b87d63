-- ===== src/Array/Loops.antt =====
-- kern/lib/array.c: what the loops of `array_preallocate` and the `memmove` of `array_remove` leave
-- in each slot.
use mathlib.Core.Logic.{◌⊎◌, inl, inr}
use native.Mathlib.Decide.{ℕ_discrete}
use operating_system.Prelude.{
  ℕ, zero, suc, ◌+◌, ◌*◌, ◌≤◌, ◌<◌, ◌≡◌, ap, refl, ◌∙◌, ◌≢◌, Option, none, some, List, ◌++◌, arith,
  length, get_elem?, take, drop, length-append, length-set, length-take, length-drop,
  get_elem?-set_self, get_elem?-set_ne, get_elem?-append_left, get_elem?-append_right,
  get_elem?-take, get_elem?-drop,
}
use operating_system.Array.Defs.{grow_max, put, copy, memmove}

-- With enough rounds the loop leaves by its test, it never shrinks the block, and it stays near the
-- size that is asked for.
pub grow_max_bounds :
    (fuel nguys newmax : ℕ)
    → nguys ≤ newmax + fuel
    → (nguys ≤ grow_max fuel nguys newmax)
      × (newmax ≤ grow_max fuel nguys newmax)
      × ((grow_max fuel nguys newmax ≡ newmax) ⊎ (grow_max fuel nguys newmax ≤ 2 * nguys))
unfolding grow_max
grow_max_bounds zero nguys newmax h = (omega arith, omega arith, inl refl)
grow_max_bounds (suc fuel) nguys newmax h =
    ground (arith, grow_max_bounds fuel nguys ((newmax + 1) * 2))

module _ {ℓ} {A : Type ℓ} where
  length-put :
      (o : Option (Option A)) (i : ℕ) (dst : List (Option A)) → length (put o i dst) ≡ length dst
  length-put none i dst = refl
  length-put (some s) i dst = length-set dst i s

  get_elem?-put_ne :
      (o : Option (Option A)) (i j : ℕ) (dst : List (Option A))
      → i ≢ j
      → get_elem? (put o i dst) j ≡ get_elem? dst j
  get_elem?-put_ne none i j dst ne = refl
  get_elem?-put_ne (some s) i j dst ne = get_elem?-set_ne dst i j s ne

  pub length-copy : (n i : ℕ) (src dst : List (Option A)) → length (copy n i src dst) ≡ length dst
  unfolding copy
  length-copy zero i src dst = refl
  length-copy (suc n) i src dst =
      length-copy n (i + 1) src (put (get_elem? src i) i dst) ∙ length-put (get_elem? src i) i dst

  -- A slot that the loop has passed, or has still to reach, ends with the old block's value.
  pub get_elem?-copy :
      (n i : ℕ) (src dst : List (Option A)) (j : ℕ) (s : Option A)
      → get_elem? src j ≡ some s
      → j < i + n
      → j < length dst
      → (i ≤ j) ⊎ (get_elem? dst j ≡ some s)
      → get_elem? (copy n i src dst) j ≡ some s
  unfolding copy
  get_elem?-copy zero i src dst j s e lt room (inl h) = absurd (omega arith)
  get_elem?-copy zero i src dst j s e lt room (inr h) = h
  get_elem?-copy (suc n) i src dst j s e lt room h =
      get_elem?-copy n (i + 1) src (put (get_elem? src i) i dst) j s e (omega arith)
        (omega (arith, length-put (get_elem? src i) i dst)) (reached (ℕ_discrete i j) h)
    where
      reached :
          Dec (i ≡ j)
          → (i ≤ j) ⊎ (get_elem? dst j ≡ some s)
          → (i + 1 ≤ j) ⊎ (get_elem? (put (get_elem? src i) i dst) j ≡ some s)
      reached (yes p) _ = inr (rw (p, e) (get_elem?-set_self dst j s room))
      reached (no ne) (inl le) = inl (omega arith)
      reached (no ne) (inr old) = inr (get_elem?-put_ne (get_elem? src i) i j dst ne ∙ old)

  pub length-memmove :
      (to from n : ℕ) (b : List (Option A))
      → to ≤ from
      → from + n ≤ length b
      → length (memmove to from n b) ≡ length b
  unfolding memmove
  length-memmove to from n b le room = omega (
    arith,
    length-append (take to b) (take n (drop from b) ++ drop (to + n) b),
    length-append (take n (drop from b)) (drop (to + n) b),
    length-take to b,
    length-take n (drop from b),
    length-drop from b,
    length-drop (to + n) b,
  )

  -- Below the target nothing moves.
  pub get_elem?-memmove_below :
      (to from n : ℕ) (b : List (Option A)) (j : ℕ)
      → j < to
      → to ≤ length b
      → get_elem? (memmove to from n b) j ≡ get_elem? b j
  unfolding memmove
  get_elem?-memmove_below to from n b j lt room =
      get_elem?-append_left (take to b) _ j (omega (arith, length-take to b))
      ∙ get_elem?-take to b j lt

  -- In the target stand the moved values.
  pub get_elem?-memmove_moved :
      (to from n : ℕ) (b : List (Option A)) (j : ℕ)
      → to ≤ from
      → from + n ≤ length b
      → j < n
      → get_elem? (memmove to from n b) (to + j) ≡ get_elem? b (from + j)
  unfolding memmove
  get_elem?-memmove_moved to from n b j le room lt =
      get_elem?-append_right (take to b) _ (to + j) (omega (arith, length-take to b))
      ∙ ap (get_elem? (take n (drop from b) ++ drop (to + n) b)) (omega (arith, length-take to b))
      ∙ get_elem?-append_left (take n (drop from b)) _ j
          (omega (arith, length-take n (drop from b), length-drop from b))
      ∙ get_elem?-take n (drop from b) j lt
      ∙ get_elem?-drop from b j
