-- ===== src/Queue/Tests.antt =====
-- Runs of the queue's functions, and its theorems at concrete queues.
use operating_system.Prelude.{
  ℕ, zero, suc, ◌+◌, ◌%◌, ◌≤◌, ◌≡◌, refl, inl, true, none, some, List, [], ◌∷◌, arith, done, ok,
  get_elem?,
}
use operating_system.Queue.Defs.{Queue, addtail, remhead}
use operating_system.Queue.Holding.{Holds}
use operating_system.Queue.Growth.{addtail-Holds}
use operating_system.Queue.Refine.{remhead-Holds}

-- 8, then 9, round the end of a block of three: no slot is free but the one that stays so.
abbrev wrapped : Queue ℕ
wrapped = record { size = 3; nextwrite = 1; nextread = 2; slots = some 9 ∷ none ∷ some 8 ∷ [] }

abbrev items : List ℕ
items = 8 ∷ 9 ∷ []

wrapped-Holds : Holds wrapped items
wrapped-Holds = record {
  small = omega arith;
  room = refl;
  head = omega arith;
  fits = omega arith;
  tail = refl;
  cells = cells_of;
}
  where
    cells_of :
        (i x : ℕ)
        → get_elem? items i ≡ some x
        → get_elem? wrapped.slots ((2 + i) % 3) ≡ some (some x)
    cells_of zero x e = ground arith
    cells_of (suc zero) x e = ground arith
    cells_of (suc (suc i)) x e = ground arith

grows_round :
    addtail true wrapped 5
    ≡ done (
      ok,
      record {
        size = 6;
        nextwrite = 3;
        nextread = 0;
        slots = some 8 ∷ some 9 ∷ some 5 ∷ none ∷ none ∷ none ∷ [];
      },
    )
unfolding addtail
grows_round = refl

addtail-Holds_example :
    (q' : Queue ℕ) × (addtail true wrapped 5 ≡ done (ok, q'))
    × Holds q' (8 ∷ 9 ∷ 5 ∷ [])
    × (3 ≤ q'.size)
addtail-Holds_example = addtail-Holds true 5 wrapped-Holds (omega arith) (inl refl)

remhead-Holds_example :
    (q' : Queue ℕ) × (remhead wrapped ≡ done (8, q')) × Holds q' (9 ∷ []) × (q'.size ≡ 3)
remhead-Holds_example = remhead-Holds wrapped-Holds
