-- ===== src/Syscall/Timeout.antt =====
-- kern/arch/mips/mips/syscall.c: `waitpid` on a child that runs.
use operating_system.Prelude.{
  ℕ, zero, suc, ◌+◌, ◌≡◌, refl, ◌∙◌, false, some, List, arith, ℤ, pos, ltb, ◌==◌, done, get_elem?,
  ◌-◌,
}
use operating_system.Thread.Defs.{Process, max_num_child}
use operating_system.Syscall.Defs.{child_index, give_up, wait_loop, sleeps, wait_child, waitpid}
use operating_system.Syscall.Waiting.{Asks, Family, waitpid-Asks, entry_at}

abbrev pub IsRunning : ℕ → List Process → Type 0
IsRunning n table = (p : Process) × (get_elem? table n ≡ some p) × (p.status ≡ 1)

-- The table after the sleeps.
abbrev pub after_sleeps : (ℕ → List Process → List Process) → ℕ → ℕ → List Process → List Process
after_sleeps world zero s table = table
after_sleeps world (suc rounds) s table = after_sleeps world rounds (s + 1) (world s table)

module _ (world : ℕ → List Process → List Process) (n : ℕ)
    (stays : (s : ℕ) (table : List Process) → IsRunning n table → IsRunning n (world s table)) where
  wait_loop_gives_up :
      (rounds s cur j : ℕ) (table : List Process)
      → IsRunning n table
      → wait_loop world rounds s cur n j table
        ≡ done (give_up n (after_sleeps world rounds s table))
  unfolding wait_loop
  wait_loop_gives_up zero s cur j table r = refl
  wait_loop_gives_up (suc rounds) s cur j table r =
      let (p, at, running) = stays s table r in
      let ih = wait_loop_gives_up rounds (s + 1) cur j (world s table) (stays s table r) in
      let test : (p.status == 2) ≡ false = ground (arith, running) in
      rw (entry_at (world s table) n at, test) ih

  -- While the child goes on to run, whatever else the other threads do to the table, `waitpid` ends all the
  -- same, after thirty sleeps: it returns -1 with the pid, writes no status, and leaves the table to them.
  pub waitpid_gives_up :
      {cur status : ℕ} {options : ℤ} (table : List Process) {child me : Process}
      → Asks cur n status options
      → Family table cur n child me
      → child.status ≡ 1
      → waitpid world cur (pos n) status options table
        ≡ done (give_up n (after_sleeps world sleeps 0 table))
  unfolding wait_child
  waitpid_gives_up {cur} {status} {options} table {child} {me} a f running =
      let fresh : (child.has_been_waited == 1) ≡ false = ground (arith, f.not_waited) in
      let early : (child_index n me.child_ids == max_num_child - 1) ≡ false =
        ground (arith, f.slot) in
      let some_child : ltb me.num_of_child 1 ≡ false = ground (arith, f.counted) in
      let ih =
        wait_loop_gives_up sleeps 0 cur (child_index n me.child_ids) table
          (child, f.child_at, running) in
      waitpid-Asks world cur n status options table a
      ∙ rw
          (
            wait_child,
            entry_at table n f.child_at,
            entry_at table cur f.me_at,
            f.used,
            fresh,
            early,
            some_child,
            running,
          )
          ih
