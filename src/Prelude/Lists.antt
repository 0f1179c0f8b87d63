-- ===== src/Prelude/Lists.antt =====
-- C arrays as lists with native indices: reads, writes, block moves, and what a read sees after each.
use Prim.Native.Nat.{ℕ, zero, suc, ◌+◌, ◌-◌, ◌≤◌, ◌<◌, min}
use mathlib.Core.Path.{◌≡◌, refl, ap}
use mathlib.Core.Logic.{◌≢◌}
use mathlib.Core.List.{List, [], ◌∷◌, ◌++◌}
use mathlib.Core.Option.{Option, none, some}
use native.Mathlib.Omega.{arith}

module _ {ℓ} {A : Type ℓ} where
  abbrev pub length : List A → ℕ
  length [] = 0
  length (x ∷ xs) = suc (length xs)

  abbrev pub get_elem? : List A → ℕ → Option A
  get_elem? [] i = none
  get_elem? (x ∷ xs) zero = some x
  get_elem? (x ∷ xs) (suc i) = get_elem? xs i

  -- A write out of bounds changes nothing.
  abbrev pub set : List A → ℕ → A → List A
  set [] i v = []
  set (x ∷ xs) zero v = v ∷ xs
  set (x ∷ xs) (suc i) v = x ∷ set xs i v

  abbrev pub take : ℕ → List A → List A
  take zero xs = []
  take (suc n) [] = []
  take (suc n) (x ∷ xs) = x ∷ take n xs

  abbrev pub drop : ℕ → List A → List A
  drop zero xs = xs
  drop (suc n) [] = []
  drop (suc n) (x ∷ xs) = drop n xs

  abbrev pub replicate : ℕ → A → List A
  replicate zero a = []
  replicate (suc n) a = a ∷ replicate n a

  -- The list without its element `i`.
  abbrev pub erase_idx : List A → ℕ → List A
  erase_idx [] i = []
  erase_idx (x ∷ xs) zero = xs
  erase_idx (x ∷ xs) (suc i) = x ∷ erase_idx xs i

module _ {ℓ} {A : Type ℓ} where
  pub length-append : (xs ys : List A) → length (xs ++ ys) ≡ length xs + length ys
  length-append [] ys = omega arith
  length-append (x ∷ xs) ys = omega (arith, length-append xs ys)

  pub length-set : (xs : List A) (i : ℕ) (v : A) → length (set xs i v) ≡ length xs
  length-set [] i v = refl
  length-set (x ∷ xs) zero v = refl
  length-set (x ∷ xs) (suc i) v = ap suc (length-set xs i v)

  pub length-replicate : (n : ℕ) (a : A) → length (replicate n a) ≡ n
  length-replicate zero a = refl
  length-replicate (suc n) a = ap suc (length-replicate n a)

  pub length-take : (n : ℕ) (xs : List A) → length (take n xs) ≡ min n (length xs)
  length-take zero xs = omega arith
  length-take (suc n) [] = omega arith
  length-take (suc n) (x ∷ xs) = omega (arith, length-take n xs)

  pub length-drop : (n : ℕ) (xs : List A) → length (drop n xs) ≡ length xs - n
  length-drop zero xs = omega arith
  length-drop (suc n) [] = omega arith
  length-drop (suc n) (x ∷ xs) = omega (arith, length-drop n xs)

  pub length-erase_idx :
      (xs : List A) (i : ℕ) → i < length xs → length (erase_idx xs i) + 1 ≡ length xs
  length-erase_idx [] i h = absurd (omega arith)
  length-erase_idx (x ∷ xs) zero h = omega arith
  length-erase_idx (x ∷ xs) (suc i) h = omega (arith, length-erase_idx xs i (omega arith))

  pub get_elem?_of_lt : (xs : List A) (i : ℕ) → i < length xs → (x : A) × (get_elem? xs i ≡ some x)
  get_elem?_of_lt [] i h = absurd (omega arith)
  get_elem?_of_lt (x ∷ xs) zero h = (x, refl)
  get_elem?_of_lt (x ∷ xs) (suc i) h = get_elem?_of_lt xs i (omega arith)

  pub get_elem?_of_ge : (xs : List A) (i : ℕ) → length xs ≤ i → get_elem? xs i ≡ none
  get_elem?_of_ge [] i h = refl
  get_elem?_of_ge (x ∷ xs) zero h = absurd (omega arith)
  get_elem?_of_ge (x ∷ xs) (suc i) h = get_elem?_of_ge xs i (omega arith)

  pub lt_of_get_elem? : (xs : List A) (i : ℕ) {x : A} → get_elem? xs i ≡ some x → i < length xs
  lt_of_get_elem? [] i h = ground arith
  lt_of_get_elem? (x ∷ xs) zero h = omega arith
  lt_of_get_elem? (x ∷ xs) (suc i) h = omega (arith, lt_of_get_elem? xs i h)

  pub get_elem?-set_self :
      (xs : List A) (i : ℕ) (v : A) → i < length xs → get_elem? (set xs i v) i ≡ some v
  get_elem?-set_self [] i v h = absurd (omega arith)
  get_elem?-set_self (x ∷ xs) zero v h = refl
  get_elem?-set_self (x ∷ xs) (suc i) v h = get_elem?-set_self xs i v (omega arith)

  pub get_elem?-set_ne :
      (xs : List A) (i j : ℕ) (v : A) → i ≢ j → get_elem? (set xs i v) j ≡ get_elem? xs j
  get_elem?-set_ne [] i j v h = refl
  get_elem?-set_ne (x ∷ xs) zero zero v h = absurd (h refl)
  get_elem?-set_ne (x ∷ xs) zero (suc j) v h = refl
  get_elem?-set_ne (x ∷ xs) (suc i) zero v h = refl
  get_elem?-set_ne (x ∷ xs) (suc i) (suc j) v h = get_elem?-set_ne xs i j v (omega arith)

  pub get_elem?-append_left :
      (xs ys : List A) (i : ℕ) → i < length xs → get_elem? (xs ++ ys) i ≡ get_elem? xs i
  get_elem?-append_left [] ys i h = absurd (omega arith)
  get_elem?-append_left (x ∷ xs) ys zero h = refl
  get_elem?-append_left (x ∷ xs) ys (suc i) h = get_elem?-append_left xs ys i (omega arith)

  pub get_elem?-append_right :
      (xs ys : List A) (i : ℕ)
      → length xs ≤ i
      → get_elem? (xs ++ ys) i ≡ get_elem? ys (i - length xs)
  get_elem?-append_right [] ys i h = ap (get_elem? ys) (omega arith)
  get_elem?-append_right (x ∷ xs) ys zero h = absurd (omega arith)
  get_elem?-append_right (x ∷ xs) ys (suc i) h = ground (arith, get_elem?-append_right xs ys i)

  -- Past the old elements stands the one that was added.
  pub get_elem?_snoc :
      (xs : List A) (x : A) (j : ℕ) {y : A}
      → length xs ≤ j
      → get_elem? (xs ++ (x ∷ [])) j ≡ some y
      → (j ≡ length xs) × (some x ≡ some y)
  get_elem?_snoc [] x zero h e = (refl, e)
  get_elem?_snoc [] x (suc j) h e = ground arith
  get_elem?_snoc (z ∷ xs) x zero h e = absurd (omega arith)
  get_elem?_snoc (z ∷ xs) x (suc j) h e =
      let (p, q) = get_elem?_snoc xs x j (omega arith) e in (ap suc p, q)

  pub get_elem?-take :
      (n : ℕ) (xs : List A) (i : ℕ) → i < n → get_elem? (take n xs) i ≡ get_elem? xs i
  get_elem?-take zero xs i h = absurd (omega arith)
  get_elem?-take (suc n) [] i h = refl
  get_elem?-take (suc n) (x ∷ xs) zero h = refl
  get_elem?-take (suc n) (x ∷ xs) (suc i) h = get_elem?-take n xs i (omega arith)

  pub get_elem?-drop :
      (n : ℕ) (xs : List A) (i : ℕ) → get_elem? (drop n xs) i ≡ get_elem? xs (n + i)
  get_elem?-drop zero xs i = ap (get_elem? xs) (omega arith)
  get_elem?-drop (suc n) [] i = refl
  get_elem?-drop (suc n) (x ∷ xs) i = ground (arith, get_elem?-drop n xs i)

  pub get_elem?-erase_idx_lt :
      (xs : List A) (k i : ℕ) → i < k → get_elem? (erase_idx xs k) i ≡ get_elem? xs i
  get_elem?-erase_idx_lt [] k i h = refl
  get_elem?-erase_idx_lt (x ∷ xs) zero i h = absurd (omega arith)
  get_elem?-erase_idx_lt (x ∷ xs) (suc k) zero h = refl
  get_elem?-erase_idx_lt (x ∷ xs) (suc k) (suc i) h = get_elem?-erase_idx_lt xs k i (omega arith)

  pub get_elem?-erase_idx_ge :
      (xs : List A) (k i : ℕ) → k ≤ i → get_elem? (erase_idx xs k) i ≡ get_elem? xs (suc i)
  get_elem?-erase_idx_ge [] k i h = refl
  get_elem?-erase_idx_ge (x ∷ xs) zero i h = refl
  get_elem?-erase_idx_ge (x ∷ xs) (suc k) zero h = absurd (omega arith)
  get_elem?-erase_idx_ge (x ∷ xs) (suc k) (suc i) h = get_elem?-erase_idx_ge xs k i (omega arith)

module _ {ℓ} {A : Type ℓ} where
  pub get_elem?_middle :
      (xs : List A) (x : A) (ys : List A) → get_elem? (xs ++ (x ∷ ys)) (length xs) ≡ some x
  get_elem?_middle [] x ys = refl
  get_elem?_middle (z ∷ xs) x ys = get_elem?_middle xs x ys

  pub erase_idx_middle :
      (xs : List A) (x : A) (ys : List A) → erase_idx (xs ++ (x ∷ ys)) (length xs) ≡ xs ++ ys
  erase_idx_middle [] x ys = refl
  erase_idx_middle (z ∷ xs) x ys = ap (λ l. z ∷ l) (erase_idx_middle xs x ys)
