-- ===== src/Queue/Holding.antt =====
-- kern/lib/queue.c: what it means that a `struct queue` holds a list of pointers.
use operating_system.Prelude.{ℕ, ◌+◌, ◌%◌, ◌^◌, ◌<◌, ◌≡◌, some, List, length, get_elem?}
use operating_system.Queue.Defs.{Queue}

-- The elements stand from `nextread` on, round the block; one slot at least is free.
pub record Holds {ℓ} {A : Type ℓ} (q : Queue A) (xs : List A) : Type ℓ where
  pub small : q.size < 2 ^ 31
  pub room : length q.slots ≡ q.size
  pub head : q.nextread < q.size
  pub fits : length xs < q.size
  pub tail : q.nextwrite ≡ (q.nextread + length xs) % q.size
  pub cells :
      (i : ℕ) (x : A)
      → get_elem? xs i ≡ some x
      → get_elem? q.slots ((q.nextread + i) % q.size) ≡ some (some x)
