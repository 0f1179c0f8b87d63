-- ===== src/Array/Holding.antt =====
-- kern/lib/array.c: what it means that a `struct array` holds a list of pointers.
use operating_system.Prelude.{ℕ, ◌≤◌, ◌≡◌, some, List, length, get_elem?}
use operating_system.Array.Defs.{Array, block}

-- The first `num` slots of a block of `max` hold the elements, in order.
pub record Holds {ℓ} {A : Type ℓ} (a : Array A) (xs : List A) : Type ℓ where
  pub fits : a.num ≤ a.max
  pub room : length (block a) ≡ a.max
  pub count : length xs ≡ a.num
  pub cells : (i : ℕ) (x : A) → get_elem? xs i ≡ some x → get_elem? (block a) i ≡ some (some x)
