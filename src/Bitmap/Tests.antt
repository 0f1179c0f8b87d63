-- ===== src/Bitmap/Tests.antt =====
-- Runs of the bitmap's functions, and the theorem at a concrete bitmap.
use operating_system.Prelude.{
  ◌≡◌, ◌↔◌, refl, true, false, none, some, [], ◌∷◌, done, halt, ok, enospc,
}
use operating_system.Bitmap.Defs.{Bitmap, create, alloc, isset, mark, unmark}
use operating_system.Bitmap.Full.{AllSet, alloc-AllSet}

-- Ten bits, of which the first eight are in use, with the six that are left over.
abbrev ten : Bitmap
ten = record { nbits = 10; v = 255 ∷ 252 ∷ [] }

created : create true true 10 ≡ done (some (record { nbits = 10; v = 0 ∷ 252 ∷ [] }))
unfolding create
created = refl

not_created : create true false 10 ≡ done none
unfolding create
not_created = refl

allocated : alloc ten ≡ done (ok, some 8, record { nbits = 10; v = 255 ∷ 253 ∷ [] })
unfolding alloc
allocated = refl

marked_twice : mark ten 3 ≡ halt
unfolding mark
marked_twice = refl

unmarked : unmark ten 3 ≡ done (record { nbits = 10; v = 247 ∷ 252 ∷ [] })
unfolding unmark
unmarked = refl

is_set : isset ten 3 ≡ done 8
unfolding isset
is_set = refl

alloc-AllSet_example : (alloc ten ≡ done (enospc, none, ten)) ↔ AllSet 0 ten
alloc-AllSet_example = alloc-AllSet ten refl
