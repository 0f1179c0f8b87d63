-- ===== src/Queue/Tail.antt =====
-- kern/lib/queue.c: a write at the tail of a queue with room.
use native.Mathlib.Decide.{dec_lt}
use native.Mathlib.Nat.{mod-lt, mod-add-mod}
use operating_system.Prelude.{
  ℕ, ◌+◌, ◌%◌, ◌<◌, ◌≡◌, ◌≢◌, ap, sym, ◌∙◌, some, List, [], ◌∷◌, ◌++◌, arith, length, get_elem?,
  length-append, length-set, get_elem?-set_self, get_elem?-set_ne, get_elem?-append_left,
  get_elem?_snoc, wrap_cases, wrap_ne, set,
}
use operating_system.Queue.Defs.{Queue, push}
use operating_system.Queue.Holding.{Holds}

module _ {ℓ} {A : Type ℓ} where
  pub push-Holds :
      {q : Queue A} {xs : List A} (x : A)
      → Holds q xs
      → length xs + 1 < q.size
      → Holds (push q x) (xs ++ (x ∷ []))
  unfolding push
  push-Holds {q} {xs} x h lt = record {
    small = h.small;
    room = length-set q.slots q.nextwrite (some x) ∙ h.room;
    head = h.head;
    fits = omega (arith, longer);
    tail =
        ap (λ w. (w + 1) % q.size) h.tail
        ∙ mod-add-mod (q.nextread + length xs) q.size 1
        ∙ ap (λ k. k % q.size) (omega (arith, longer));
    cells = λ j y e. cell j y (dec_lt j (length xs)) e;
  }
    where
      longer : length (xs ++ (x ∷ [])) ≡ length xs + 1
      longer = length-append xs (x ∷ [])

      inside : q.nextwrite < length q.slots
      inside = omega (arith, mod-lt (q.nextread + length xs) {m = q.size} (omega arith))

      cell :
          (j : ℕ) (y : A)
          → Dec (j < length xs)
          → get_elem? (xs ++ (x ∷ [])) j ≡ some y
          → get_elem? (set q.slots q.nextwrite (some x)) ((q.nextread + j) % q.size) ≡ some (some y)
      cell j y (yes old) e =
          get_elem?-set_ne q.slots q.nextwrite _ (some x)
            (λ same. wrap_ne h.head old h.fits (sym (sym h.tail ∙ same)))
          ∙ h.cells j y (sym (get_elem?-append_left xs (x ∷ []) j old) ∙ e)
      cell j y (no new) e =
          let (here, same) = get_elem?_snoc xs x j (omega arith) e in
          ap (get_elem? (set q.slots q.nextwrite (some x)))
            (ap (λ k. (q.nextread + k) % q.size) here ∙ sym h.tail)
          ∙ get_elem?-set_self q.slots q.nextwrite (some x) inside
          ∙ ap some same

  next_tail :
      {q : Queue A} {xs : List A}
      → Holds q xs
      → (q.nextwrite + 1) % q.size ≡ (q.nextread + (length xs + 1)) % q.size
  next_tail {q} {xs} h =
      ap (λ w. (w + 1) % q.size) h.tail
      ∙ mod-add-mod (q.nextread + length xs) q.size 1
      ∙ ap (λ k. k % q.size) (omega arith)

  -- The test of `q_addtail` tells a queue with one free slot from one with more.
  pub next_tail_full :
      {q : Queue A} {xs : List A}
      → Holds q xs
      → length xs + 1 ≡ q.size
      → (q.nextwrite + 1) % q.size ≡ q.nextread
  next_tail_full {q} {xs} h full =
      next_tail h
      ∙ omega
          (arith, wrap_cases {h = q.nextread} {j = length xs + 1} {c = q.size} h.head (omega arith))

  pub next_tail_room :
      {q : Queue A} {xs : List A}
      → Holds q xs
      → length xs + 1 < q.size
      → (q.nextwrite + 1) % q.size ≢ q.nextread
  next_tail_room {q} {xs} h more same = omega (
    arith,
    sym (next_tail h) ∙ same,
    wrap_cases {h = q.nextread} {j = length xs + 1} {c = q.size} h.head (omega arith),
  )
