-- ===== src/Array/Tests.antt =====
-- Runs of the array's functions, and its theorems at concrete arrays.
use operating_system.Prelude.{
  ℕ, zero, suc, ◌≤◌, ◌≡◌, refl, inr, true, false, none, some, List, [], ◌∷◌, pos, negsuc, arith,
  done, halt, ok, get_elem?,
}
use operating_system.Array.Defs.{Array, getguy, preallocate, add, remove}
use operating_system.Array.Holding.{Holds}
use operating_system.Array.Refine.{add-Holds}
use operating_system.Array.Remove.{remove-Holds}

-- Two elements in a block of three.
abbrev two : Array ℕ
two = record { num = 2; max = 3; v = some (some 7 ∷ some 8 ∷ none ∷ []) }

abbrev items : List ℕ
items = 7 ∷ 8 ∷ []

two-Holds : Holds two items
two-Holds = record { fits = omega arith; room = refl; count = refl; cells = cells_of }
  where
    cells_of :
        (i x : ℕ)
        → get_elem? items i ≡ some x
        → get_elem? (some 7 ∷ some 8 ∷ none ∷ []) i ≡ some (some x)
    cells_of zero x e = ground arith
    cells_of (suc zero) x e = ground arith
    cells_of (suc (suc i)) x e = ground arith

grows :
    preallocate true two 4
    ≡ done (
      ok,
      record {
        num = 2;
        max = 8;
        v = some (some 7 ∷ some 8 ∷ none ∷ none ∷ none ∷ none ∷ none ∷ none ∷ []);
      },
    )
unfolding preallocate
grows = refl

checked :
    (getguy two (negsuc 0) ≡ halt) × (getguy two (pos 2) ≡ halt) × (getguy two (pos 1) ≡ done 8)
unfolding getguy
checked = (refl, refl, refl)

add-Holds_example :
    (a' : Array ℕ) × (add false two 9 ≡ done (ok, a')) × Holds a' (7 ∷ 8 ∷ 9 ∷ []) × (3 ≤ a'.max)
add-Holds_example = add-Holds false 9 two-Holds (inr (omega arith))

remove-Holds_example :
    (a' : Array ℕ) × (remove two (pos 0) ≡ done a') × Holds a' (8 ∷ []) × (a'.max ≡ 3)
remove-Holds_example = remove-Holds 0 two-Holds (omega arith)
