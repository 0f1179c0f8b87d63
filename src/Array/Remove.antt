-- ===== src/Array/Remove.antt =====
-- kern/lib/array.c: `array_remove` closes the hole that it makes.
use native.Mathlib.Decide.{dec_lt}
use operating_system.Prelude.{
  ℕ, suc, ◌+◌, ◌-◌, ◌<◌, ◌≡◌, ap, refl, sym, ◌∙◌, Option, none, some, List, pos, arith, done,
  length, get_elem?, erase_idx, length-erase_idx, lt_of_get_elem?, get_elem?-erase_idx_lt,
  get_elem?-erase_idx_ge,
}
use operating_system.Array.Defs.{Array, block, block_of, memmove, remove}
use operating_system.Array.Loops.{length-memmove, get_elem?-memmove_below, get_elem?-memmove_moved}
use operating_system.Array.Holding.{Holds}

module _ {ℓ} {A : Type ℓ} where
  -- The array after the move.
  closed : Array A → ℕ → Array A
  closed a i = record {
    num = a.num - 1;
    max = a.max;
    v = elim a.v [ none ↦ none | some b ↦ some (memmove i (i + 1) (a.num - (i + 1)) b) ];
  }

  block-closed :
      (a : Array A) (i : ℕ)
      → i < length (block a)
      → block (closed a i) ≡ memmove i (i + 1) (a.num - (i + 1)) (block a)
  unfolding closed
  block-closed a i h = block_v a.v h
    where
      block_v :
          (v : Option (List (Option A)))
          → i < length (block_of v)
          → block_of
              (elim v [ none ↦ none | some b ↦ some (memmove i (i + 1) (a.num - (i + 1)) b) ])
            ≡ memmove i (i + 1) (a.num - (i + 1)) (block_of v)
      block_v none h = absurd (omega arith)
      block_v (some b) h = refl

  closed-Holds :
      {a : Array A} {xs : List A} (i : ℕ)
      → Holds a xs
      → i < length xs
      → Holds (closed a i) (erase_idx xs i)
  unfolding closed
  closed-Holds {a} {xs} i h lt = record {
    fits = omega arith;
    room =
        ap length (block-closed a i inside)
        ∙ length-memmove i (i + 1) (a.num - (i + 1)) (block a) (omega arith) (omega arith)
        ∙ h.room;
    count = omega (arith, length-erase_idx xs i lt);
    cells = λ j y e. ap (λ b. get_elem? b j) (block-closed a i inside) ∙ cell j y (dec_lt j i) e;
  }
    where
      inside : i < length (block a)
      inside = omega arith

      cell :
          (j : ℕ) (y : A)
          → Dec (j < i)
          → get_elem? (erase_idx xs i) j ≡ some y
          → get_elem? (memmove i (i + 1) (a.num - (i + 1)) (block a)) j ≡ some (some y)
      cell j y (yes below) e =
          get_elem?-memmove_below i (i + 1) _ (block a) j below (omega arith)
          ∙ h.cells j y (sym (get_elem?-erase_idx_lt xs i j below) ∙ e)
      cell j y (no above) e =
          ap (get_elem? (memmove i (i + 1) (a.num - (i + 1)) (block a))) (omega arith)
          ∙ get_elem?-memmove_moved i (i + 1) (a.num - (i + 1)) (block a) (j - i) (omega arith)
              (omega arith) (omega (arith, lt_of_get_elem? xs (suc j) next))
          ∙ ap (get_elem? (block a)) (omega arith)
          ∙ h.cells (suc j) y next
        where
          next : get_elem? xs (suc j) ≡ some y
          next = sym (get_elem?-erase_idx_ge xs i j (omega arith)) ∙ e

  -- `array_remove` at an index in range: the element goes, the others keep their order.
  pub remove-Holds :
      {a : Array A} {xs : List A} (i : ℕ)
      → Holds a xs
      → i < length xs
      → (a' : Array A) × (remove a (pos i) ≡ done a') × Holds a' (erase_idx xs i) × (a'.max ≡ a.max)
  unfolding remove closed
  remove-Holds {a} i h lt = (closed a i, ground arith, closed-Holds i h lt, refl)
