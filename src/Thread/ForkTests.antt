-- ===== src/Thread/ForkTests.antt =====
-- Runs of what `thread_fork` does, and its theorems at concrete parents.
use operating_system.Prelude.{◌≡◌, refl, pos, ◌∷◌, replicate, done, halt}
use operating_system.Thread.Defs.{Process, unused_process}
use operating_system.Thread.Fork.{record_child}

abbrev parent : Process
parent = record unused_process { pid = pos 1; status = 1 }

-- A parent whose count is nine.
abbrev of_four : Process
of_four = record parent { num_of_child = 9 }

first_child :
    record_child 2 parent
    ≡ done (record parent { num_of_child = 2; child_ids = pos 2 ∷ pos 2 ∷ replicate 8 (pos 0) })
unfolding record_child
first_child = refl

past_the_block : record_child 2 of_four ≡ halt
unfolding record_child
past_the_block = refl
