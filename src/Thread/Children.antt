-- ===== src/Thread/Children.antt =====
-- kern/thread/thread.c: how many children `thread_fork` can record.
use operating_system.Prelude.{
  ℕ, ◌+◌, ◌<◌, ◌≤◌, ◌≡◌, refl, arith, false, ltb, lt→ltb, Bool-cases, inl, inr, set, pos, done,
  halt,
}
use operating_system.Thread.Defs.{Process, max_num_child}
use operating_system.Thread.Fork.{set_child, child_slot, record_child}

-- Where a slot of the parent's children is 0 and the count is less than nine, `thread_fork` records the
-- child twice, in that slot and in the slot that the count plus one names, and adds two to the count.
pub record_child_twice :
    (pid : ℕ) (p : Process)
    → child_slot 0 p.child_ids < max_num_child
    → p.num_of_child + 1 < max_num_child
    → record_child pid p
      ≡ done (record p {
        num_of_child = p.num_of_child + 1 + 1;
        child_ids =
            set
              (set p.child_ids (child_slot 0 p.child_ids) (pos pid))
              (p.num_of_child + 1)
              (pos pid);
      })
unfolding record_child set_child
record_child_twice pid p slot count = rw (
  lt→ltb (child_slot 0 p.child_ids) max_num_child slot,
  lt→ltb (p.num_of_child + 1) max_num_child count,
)

-- With a count of nine or more the second write is past the block of the children, whatever slots of it
-- are free.
pub record_child_past :
    (pid : ℕ) (p : Process) → max_num_child ≤ p.num_of_child + 1 → record_child pid p ≡ halt
unfolding record_child set_child
record_child_past pid p count =
    let past : ltb (p.num_of_child + 1) max_num_child ≡ false = ground arith in
    elim (Bool-cases (ltb (child_slot 0 p.child_ids) max_num_child)) [
      | inl a ↦ rw (a, past) refl
      | inr b ↦ rw b refl
    ]
