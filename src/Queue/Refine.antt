-- ===== src/Queue/Refine.antt =====
-- kern/lib/queue.c: the head of a queue that holds a list, and the test for emptiness.
use native.Mathlib.Nat.{mod-lt, mod-eq_of_lt, mod-add-mod}
use operating_system.Prelude.{
  ℕ, suc, ◌+◌, ◌%◌, ◌^◌, ◌<◌, ◌≡◌, ◌↔◌, ap, refl, sym, ◌∙◌, some, true, List, [], ◌∷◌, arith,
  get_elem?, length, wrap_ne, ◌==◌, ==_iff, done, halt, halt, none, length-replicate,
}
use operating_system.Queue.Defs.{Queue, remhead, is_empty, create, fresh}
use operating_system.Queue.Holding.{Holds}

module _ {ℓ} {A : Type ℓ} where
  -- `q_create` with memory, for a positive size, gives an empty queue.
  pub create-Holds :
      (n : ℕ)
      → 0 < n
      → n < 2 ^ 31
      → (q : Queue A) × (create true true n ≡ some q) × Holds q [] × (q.size ≡ n)
  unfolding create
  create-Holds n p s = (
    fresh n,
    refl,
    record {
      small = s;
      room = length-replicate n none;
      head = p;
      fits = p;
      tail = sym (mod-eq_of_lt p);
      cells = λ i x e. ground arith;
    },
    refl,
  )

  -- A queue is empty, for `q_empty`, exactly if it holds nothing.
  pub is_empty-Holds : {q : Queue A} {xs : List A} → Holds q xs → (is_empty q ≡ true) ↔ (xs ≡ [])
  unfolding is_empty
  is_empty-Holds {q} {xs} h = (nothing xs h, λ e. (==_iff _ _).1 (start e))
    where
      nothing : (xs : List A) → Holds q xs → (q.nextwrite == q.nextread) ≡ true → xs ≡ []
      nothing [] h e = refl
      nothing (x ∷ xs) h e = absurd (
          wrap_ne {h = q.nextread} {j = 0} {k = suc (length xs)} h.head (omega arith) h.fits (
            ap (λ k. k % q.size) (omega arith)
            ∙ mod-eq_of_lt h.head
            ∙ sym ((==_iff _ _).0 e)
            ∙ h.tail))

      start : xs ≡ [] → q.nextwrite ≡ q.nextread
      start e =
          h.tail
          ∙ ap (λ l. (q.nextread + length l) % q.size) e
          ∙ ap (λ k. k % q.size) (omega arith)
          ∙ mod-eq_of_lt h.head

  pub remhead-Holds_nothing : {q : Queue A} → Holds q [] → remhead q ≡ halt
  unfolding remhead
  remhead-Holds_nothing {q} h = ground (arith, (is_empty-Holds h).1 refl)

  -- `q_remhead` takes the oldest element, and leaves the others in order.
  pub remhead-Holds :
      {q : Queue A} {x : A} {xs : List A}
      → Holds q (x ∷ xs)
      → (q' : Queue A) × (remhead q ≡ done (x, q')) × Holds q' xs × (q'.size ≡ q.size)
  unfolding remhead
  remhead-Holds {q} {x} {xs} h = (
    record q { nextread = (q.nextread + 1) % q.size },
    ground (arith, is_empty-Holds h, first),
    record {
      small = h.small;
      room = h.room;
      head = mod-lt (q.nextread + 1) (omega arith);
      fits = omega arith;
      tail = h.tail ∙ sym (shift (length xs));
      cells = λ j y e. ap (get_elem? q.slots) (shift j) ∙ h.cells (suc j) y e;
    },
    refl,
  )
    where
      shift : (j : ℕ) → ((q.nextread + 1) % q.size + j) % q.size ≡ (q.nextread + suc j) % q.size
      shift j = mod-add-mod (q.nextread + 1) q.size j ∙ ap (λ k. k % q.size) (omega arith)

      first : get_elem? q.slots q.nextread ≡ some (some x)
      first =
          ap (get_elem? q.slots) (sym (ap (λ k. k % q.size) (omega arith) ∙ mod-eq_of_lt h.head))
          ∙ h.cells 0 x refl

  -- On an empty queue its assertion fails.
  pub remhead_empty : {q : Queue A} → Holds q [] → remhead q ≡ halt
  unfolding remhead
  remhead_empty {q} h = ground (arith, (is_empty-Holds h).1 refl)
