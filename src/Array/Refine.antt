-- ===== src/Array/Refine.antt =====
-- kern/lib/array.c: each function on an array that holds a list, against the operation on the list.
use native.Mathlib.Decide.{ℕ_discrete, dec_lt}
use operating_system.Prelude.{
  ℕ, ◌+◌, ◌*◌, ◌≤◌, ◌<◌, ◌≡◌, ap, refl, sym, ◌∙◌, ◌⊎◌, inl, Bool, true, false, Option, none, some,
  List, [], ◌∷◌, ◌++◌, pos, arith, ltb, leb, Outcome, done, halt, ok, enomem, length, get_elem?,
  set, replicate, length-append, length-set, length-replicate, get_elem?_of_lt, get_elem?_of_ge,
  lt_of_get_elem?, get_elem?-set_self, get_elem?-set_ne, get_elem?-append_left, get_elem?_snoc,
}
use operating_system.Array.Defs.{
  Array, block, new_max, copy, getnum, getguy, preallocate, setsize, store, setguy, add, is_some,
  block_of,
}
use operating_system.Array.Loops.{grow_max_bounds, length-copy, get_elem?-copy}
use operating_system.Array.Holding.{Holds}

module _ {ℓ} {A : Type ℓ} where
  -- What an index gives: the element, or a failed assertion.
  abbrev pub or_halt : Option A → Outcome A
  or_halt none = halt
  or_halt (some x) = done x

  -- An index gives the element there; past the last one the assertion fails.
  pub getguy-Holds :
      {a : Array A} {xs : List A} (i : ℕ) → Holds a xs → getguy a (pos i) ≡ or_halt (get_elem? xs i)
  unfolding getguy
  getguy-Holds {a} {xs} i h = elim (dec_lt i (length xs)) [
    | yes lt ↦ let (x, e) = get_elem?_of_lt xs i lt in ground (arith, h.cells i x e)
    | no ge ↦ ground (arith, get_elem?_of_ge xs i)
  ]

  pub getnum-Holds : {a : Array A} {xs : List A} → Holds a xs → getnum a ≡ length xs
  unfolding getnum
  getnum-Holds h = sym h.count

  -- The new block of `array_preallocate`.
  moved : Array A → ℕ → Array A
  moved a n = record {
    num = a.num;
    max = new_max n a.max;
    v = some (copy a.num 0 (block a) (replicate (new_max n a.max) none));
  }

  moved-Holds : {a : Array A} {xs : List A} (n : ℕ) → Holds a xs → Holds (moved a n) xs
  unfolding moved
  moved-Holds {a} {xs} n h = record {
    fits = omega (arith, larger);
    room = length-copy a.num 0 (block a) _ ∙ length-replicate (new_max n a.max) none;
    count = h.count;
    cells = λ i x e.
        get_elem?-copy a.num 0 (block a) _ i (some x) (h.cells i x e)
          (omega (arith, lt_of_get_elem? xs i e))
          (omega (
            arith,
            lt_of_get_elem? xs i e,
            larger,
            length-replicate {A = Option A} (new_max n a.max) none,
          ))
          (inl (omega arith));
  }
    where
      larger : a.max ≤ new_max n a.max
      larger = (grow_max_bounds n n a.max (omega arith)).1

  -- `array_preallocate` with memory: the same elements, in a block that has the room asked for and
  -- is not larger than twice that, unless it already was.
  pub preallocate-Holds :
      {a : Array A} {xs : List A} (n : ℕ)
      → Holds a xs
      → (a' : Array A) × (preallocate true a n ≡ done (ok, a'))
        × Holds a' xs
        × (n ≤ a'.max)
        × (a.max ≤ a'.max)
        × ((a'.max ≡ a.max) ⊎ (a'.max ≤ 2 * n))
  unfolding preallocate moved
  preallocate-Holds {a} {xs} n h =
      let (enough, larger, tight) = grow_max_bounds n n a.max (omega arith) in
      (moved a n, ground arith, moved-Holds n h, enough, larger, tight)

  -- Without memory it says so and leaves the array alone.
  pub preallocate_refused :
      {a : Array A} {xs : List A} (n : ℕ) → Holds a xs → preallocate false a n ≡ done (enomem, a)
  unfolding preallocate
  preallocate_refused n h = ground arith

  block-store : (a : Array A) (i : ℕ) (x : A) → block (store a i x) ≡ set (block a) i (some x)
  unfolding store
  block-store a i x = ground arith

  store-Holds :
      {a : Array A} {xs : List A} (i : ℕ) (x : A)
      → Holds a xs
      → i < length xs
      → Holds (store a i x) (set xs i x)
  unfolding store
  store-Holds {a} {xs} i x h lt = record {
    fits = h.fits;
    room = ap length (block-store a i x) ∙ length-set (block a) i (some x) ∙ h.room;
    count = length-set xs i x ∙ h.count;
    cells = λ j y e. ap (λ b. get_elem? b j) (block-store a i x) ∙ cell j y (ℕ_discrete i j) e;
  }
    where
      cell :
          (j : ℕ) (y : A)
          → Dec (i ≡ j)
          → get_elem? (set xs i x) j ≡ some y
          → get_elem? (set (block a) i (some x)) j ≡ some (some y)
      cell j y (yes p) e =
          ground (arith, get_elem?-set_self xs i x lt, get_elem?-set_self (block a) i (some x))
      cell j y (no ne) e =
          get_elem?-set_ne (block a) i j (some x) ne
          ∙ h.cells j y (sym (get_elem?-set_ne xs i j x ne) ∙ e)

  pub setguy-Holds :
      {a : Array A} {xs : List A} (i : ℕ) (x : A)
      → Holds a xs
      → i < length xs
      → (a' : Array A) × (setguy a (pos i) x ≡ done a') × Holds a' (set xs i x)
  unfolding setguy
  setguy-Holds {a} i x h lt = (store a i x, ground arith, store-Holds i x h lt)

  -- One more element in a block that has room for it.
  extended-Holds :
      {a : Array A} {xs : List A} (x : A)
      → Holds a xs
      → a.num < a.max
      → Holds (store (record a { num = a.num + 1 }) a.num x) (xs ++ (x ∷ []))
  unfolding store
  extended-Holds {a} {xs} x h lt = record {
    fits = omega arith;
    room = ap length (block-store grown a.num x) ∙ length-set (block a) a.num (some x) ∙ h.room;
    count = omega (arith, length-append xs (x ∷ []));
    cells = λ j y e.
        ap (λ b. get_elem? b j) (block-store grown a.num x) ∙ cell j y (dec_lt j (length xs)) e;
  }
    where
      grown : Array A
      grown = record a { num = a.num + 1 }

      cell :
          (j : ℕ) (y : A)
          → Dec (j < length xs)
          → get_elem? (xs ++ (x ∷ [])) j ≡ some y
          → get_elem? (set (block a) a.num (some x)) j ≡ some (some y)
      cell j y (yes old) e =
          get_elem?-set_ne (block a) a.num j (some x) (omega arith)
          ∙ h.cells j y (sym (get_elem?-append_left xs (x ∷ []) j old) ∙ e)
      cell j y (no new) e =
          let (here, same) = get_elem?_snoc xs x j (omega arith) e in
          ground (arith, get_elem?-set_self (block a) a.num (some x))

  -- `array_add` with memory, or with room: the element stands behind the others. The block never
  -- shrinks.
  pub add-Holds :
      {a : Array A} {xs : List A} (mem : Bool) (x : A)
      → Holds a xs
      → (mem ≡ true) ⊎ (a.num < a.max)
      → (a' : Array A) × (add mem a x ≡ done (ok, a'))
        × Holds a' (xs ++ (x ∷ []))
        × (a.max ≤ a'.max)
  unfolding add moved store
  add-Holds {a} {xs} mem x h w = elim (dec_lt a.num a.max) [
    | yes lt ↦ (
      store (record a { num = a.num + 1 }) a.num x,
      ground arith,
      extended-Holds x h lt,
      omega arith,
    )
    | no ge ↦ (
      store (record (moved a (a.num + 1)) { num = a.num + 1 }) a.num x,
      ground arith,
      extended-Holds x (moved-Holds (a.num + 1) h)
          (omega (arith, grow_max_bounds (a.num + 1) (a.num + 1) a.max)),
      omega (arith, grow_max_bounds (a.num + 1) (a.num + 1) a.max),
    )
  ]

  -- Without memory a full array says so and stays as it is.
  pub add_refused :
      {a : Array A} {xs : List A} (x : A)
      → Holds a xs
      → a.num ≡ a.max
      → add false a x ≡ done (enomem, a)
  unfolding add
  add_refused x h full = ground arith

  -- A block of positive length is there.
  block_some : (v : Option (List (Option A))) → 0 < length (block_of v) → is_some v ≡ true
  block_some none h = absurd (omega arith)
  block_some (some b) h = refl

  -- `array_setsize(a, 0)`: no elements, and no failure, whatever the memory.
  pub setsize_zero-Holds :
      {a : Array A} {xs : List A} (mem : Bool)
      → Holds a xs
      → (a' : Array A) × (setsize mem a 0 ≡ done (ok, a')) × Holds a' []
  unfolding setsize
  setsize_zero-Holds {a} mem h = elim (dec_lt 16 a.max) [
    | yes lt ↦ (
      record { num = 0; max = 0; v = none },
      ground (arith, block_some a.v),
      record { fits = omega arith; room = refl; count = refl; cells = λ i x e. ground arith },
    )
    | no ge ↦ (
      record a { num = 0 },
      (let f : leb a.num a.max ≡ true = ground arith in
          let e : ltb a.max 0 ≡ false = ground arith in
          let g : ltb 16 a.max ≡ false = ground arith in rw (f, e, g)),
      record { fits = omega arith; room = h.room; count = refl; cells = λ i x e. ground arith },
    )
  ]
