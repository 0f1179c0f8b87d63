-- ===== src/Syscall/Waiting.antt =====
-- kern/arch/mips/mips/syscall.c: what `waitpid` gives.
use operating_system.Prelude.{
  ℕ, ◌-◌, ◌<◌, ◌≡◌, ◌≢◌, inl, inr, refl, ap, sym, ◌∙◌, [], Outcome, true, false, some, List, arith,
  ℤ, pos, negsuc, ltb, leb, ◌==◌, lt→ltb, ok, einval, done, halt, get_elem?, set, modify, modify_at,
  Bool-cases,
}
use operating_system.Thread.Defs.{Process, p_table_size, max_num_child, is_unused}
use operating_system.Syscall.Defs.{
  code, refuse, entry, is_pid, child_index, forget, waited, put_entry, collect, wait_child,
  bad_status, waitpid, exit, Reply,
}

-- What `waitpid` asks of its arguments.
pub record Asks (cur n status : ℕ) (options : ℤ) : Type 0 where
  pub in_table : n < p_table_size
  pub good_status : bad_status status ≡ false
  pub other : n ≢ cur
  pub no_options : is_pid 0 options ≡ true

-- The process `n` and the one that waits, `cur`, which has it in a slot before the last one.
pub record Family (table : List Process) (cur n : ℕ) (child me : Process) : Type 0 where
  pub child_at : get_elem? table n ≡ some child
  pub me_at : get_elem? table cur ≡ some me
  pub used : is_unused child ≡ false
  pub not_waited : child.has_been_waited ≢ 1
  pub slot : child_index n me.child_ids < max_num_child - 1
  pub counted : 0 < me.num_of_child

-- The parent without the child in its slot.
abbrev pub bereft : ℕ → Process → Process
bereft n me = record me {
  child_ids = set me.child_ids (child_index n me.child_ids) (negsuc 0);
  num_of_child = me.num_of_child - 1;
}

module _ (world : ℕ → List Process → List Process) (cur n status : ℕ) (options : ℤ)
    (table : List Process) where
  pub waitpid-Asks :
      Asks cur n status options
      → waitpid world cur (pos n) status options table ≡ wait_child world cur n table
  unfolding waitpid
  waitpid-Asks a =
      let in_range : leb p_table_size n ≡ false = ground (arith, a.in_table) in
      let others : (n == cur) ≡ false = ground (arith, a.other) in
      rw (in_range, a.good_status, others, a.no_options) refl

pub entry_at :
    (table : List Process) (i : ℕ) {p : Process}
    → get_elem? table i ≡ some p
    → entry table i ≡ done p
unfolding entry
entry_at table i at = rw (entry, at)

forget_room :
    (n : ℕ) (me : Process)
    → child_index n me.child_ids < max_num_child
    → forget (child_index n me.child_ids) me ≡ done (bereft n me)
unfolding forget
forget_room n me slot = rw (lt→ltb (child_index n me.child_ids) max_num_child slot)

collect_lem :
    (cur n : ℕ) (table : List Process) (child me : Process)
    → get_elem? table n ≡ some child
    → get_elem? table cur ≡ some me
    → child_index n me.child_ids < max_num_child
    → collect cur n (child_index n me.child_ids) table
      ≡ done (record {
        answer = code ok;
        retval = pos n;
        status = some child.exit_code;
        table = modify (put_entry table cur (bereft n me)) n waited;
      })
unfolding collect
collect_lem cur n table child me child_at me_at slot =
    rw (entry_at table n child_at, entry_at table cur me_at, forget_room n me slot)

-- Which processes there are after the child was collected.
abbrev pub Collected : List Process → List Process → ℕ → ℕ → Process → Process → Type 0
Collected table after cur n child me =
    (get_elem? after n ≡ some (waited child))
    × (get_elem? after cur ≡ some (bereft n me))
    × ((i : ℕ) (p : Process)
        → i ≢ n
        → i ≢ cur
        → get_elem? table i ≡ some p
        → get_elem? after i ≡ some p)

collected :
    (cur n : ℕ) (table : List Process) (child me : Process)
    → n ≢ cur
    → get_elem? table n ≡ some child
    → get_elem? table cur ≡ some me
    → Collected table (modify (put_entry table cur (bereft n me)) n waited) cur n child me
collected cur n table child me other child_at me_at = (
  modify_at (put_entry table cur (bereft n me)) n n waited
        (modify_at table cur n (λ _. bereft n me) child_at)
      ∙ ground (arith, other),
  modify_at (put_entry table cur (bereft n me)) n cur waited
        (modify_at table cur cur (λ _. bereft n me) me_at)
      ∙ ground (arith, other),
  λ i p not_n not_cur at.
      modify_at (put_entry table cur (bereft n me)) n i waited
        (modify_at table cur i (λ _. bereft n me) at)
      ∙ ground (arith, not_n, not_cur),
)

module _ (world : ℕ → List Process → List Process) (cur n : ℕ) (table : List Process) where
  -- A child that has exited is collected at once.
  wait_exited :
      {child me : Process}
      → Family table cur n child me
      → child.status ≡ 2
      → wait_child world cur n table ≡ collect cur n (child_index n me.child_ids) table
  unfolding wait_child
  wait_exited {child} {me} f exited =
      let fresh : (child.has_been_waited == 1) ≡ false = ground (arith, f.not_waited) in
      let early : (child_index n me.child_ids == max_num_child - 1) ≡ false =
        ground (arith, f.slot) in
      let some_child : ltb me.num_of_child 1 ≡ false = ground (arith, f.counted) in
      rw (
        entry_at table n f.child_at,
        entry_at table cur f.me_at,
        f.used,
        fresh,
        early,
        some_child,
        exited,
      )

  -- One that was waited for is refused.
  wait_waited :
      {child me : Process}
      → get_elem? table n ≡ some child
      → get_elem? table cur ≡ some me
      → child.has_been_waited ≡ 1
      → wait_child world cur n table ≡ done (refuse einval table)
  unfolding wait_child
  wait_waited {child} {me} child_at me_at once = elim (Bool-cases (is_unused child)) [
    | inl unused ↦ rw (entry_at table n child_at, entry_at table cur me_at, unused)
    | inr used ↦ rw (entry_at table n child_at, entry_at table cur me_at, used, once)
  ]

  -- A slot where no child is: the search ends behind the last slot, and the test of the last slot passes.
  wait_stranger :
      {child me : Process}
      → get_elem? table n ≡ some child
      → get_elem? table cur ≡ some me
      → is_unused child ≡ false
      → child.has_been_waited ≢ 1
      → child_index n me.child_ids ≡ max_num_child
      → 0 < me.num_of_child
      → child.status ≡ 2
      → wait_child world cur n table ≡ halt
  unfolding wait_child collect forget
  wait_stranger {child} {me} child_at me_at used not_waited nowhere counted exited =
      let fresh : (child.has_been_waited == 1) ≡ false = ground (arith, not_waited) in
      let some_child : ltb me.num_of_child 1 ≡ false = ground (arith, counted) in
      rw (
        entry_at table n child_at,
        entry_at table cur me_at,
        used,
        fresh,
        nowhere,
        some_child,
        exited,
      )

  -- The last slot is refused.
  wait_last_slot :
      {child me : Process}
      → get_elem? table n ≡ some child
      → get_elem? table cur ≡ some me
      → child_index n me.child_ids ≡ max_num_child - 1
      → wait_child world cur n table ≡ done (refuse einval table)
  unfolding wait_child
  wait_last_slot {child} {me} child_at me_at last = elim (Bool-cases (is_unused child)) [
    | inl unused ↦ rw (entry_at table n child_at, entry_at table cur me_at, unused)
    | inr used ↦ elim (Bool-cases (child.has_been_waited == 1)) [
      | inl once ↦ rw (entry_at table n child_at, entry_at table cur me_at, used, once)
      | inr fresh ↦ rw (entry_at table n child_at, entry_at table cur me_at, used, fresh, last)
    ]
  ]

module _ (world : ℕ → List Process → List Process) {cur n status : ℕ} {options : ℤ}
    (a : Asks cur n status options) (table : List Process) {child me : Process} where
  -- The child `n` of the process `cur`, in a slot before the last one, calls `_exit` with a code. Then
  -- `waitpid` gives its pid and that code at once; the child counts as waited for, it is out of its parent's
  -- slot and count, and every other process is as it was.
  pub waitpid-exit :
      (exitcode : ℕ)
      → Family table cur n child me
      → (after : List Process) × (waitpid world cur (pos n) status options (exit n exitcode table)
          ≡ done
              (record { answer = code ok; retval = pos n; status = some exitcode; table = after }))
        × Collected table after cur n (record child { exit_code = exitcode; status = 2 }) me
  unfolding exit
  waitpid-exit exitcode f =
      let gone : Process = record child { exit_code = exitcode; status = 2 } in
      let table' = modify table n (λ p. record p { exit_code = exitcode; status = 2 }) in
      let g : Family table' cur n gone me = record {
        child_at =
            modify_at table n n (λ p. record p { exit_code = exitcode; status = 2 }) f.child_at
            ∙ ground arith;
        me_at =
            modify_at table n cur (λ p. record p { exit_code = exitcode; status = 2 }) f.me_at
            ∙ ground (arith, a.other);
        used = f.used;
        not_waited = f.not_waited;
        slot = f.slot;
        counted = f.counted;
      } in
      let (x, y, z) = collected cur n table' gone me a.other g.child_at g.me_at in
      (
        _,
        waitpid-Asks world cur n status options table' a
            ∙ wait_exited world cur n table' g refl
            ∙ collect_lem cur n table' gone me g.child_at g.me_at (omega (arith, f.slot)),
        (
          x,
          y,
          λ i p not_n not_cur at. z i p not_n not_cur (
              modify_at table n i (λ p. record p { exit_code = exitcode; status = 2 }) at
              ∙ ground (arith, not_n)),
        ),
      )

  -- One that was waited for is refused, and the table stays.
  waitpid-waited :
      get_elem? table n ≡ some child
      → get_elem? table cur ≡ some me
      → child.has_been_waited ≡ 1
      → waitpid world cur (pos n) status options table ≡ done (refuse einval table)
  waitpid-waited child_at me_at once =
      waitpid-Asks world cur n status options table a
      ∙ wait_waited world cur n table child_at me_at once

  -- The test whether the pid is a child compares with the last slot. A process that has exited and is no
  -- child of the caller, which counts some child, is not refused: the write to the slot is past the block.
  pub waitpid_stranger :
      get_elem? table n ≡ some child
      → get_elem? table cur ≡ some me
      → is_unused child ≡ false
      → child.has_been_waited ≢ 1
      → child_index n me.child_ids ≡ max_num_child
      → 0 < me.num_of_child
      → child.status ≡ 2
      → waitpid world cur (pos n) status options table ≡ halt
  waitpid_stranger child_at me_at used not_waited nowhere counted exited =
      waitpid-Asks world cur n status options table a
      ∙ wait_stranger world cur n table child_at me_at used not_waited nowhere counted exited

  -- The child in the last slot is refused, whether it has exited or not.
  pub waitpid_last_slot :
      get_elem? table n ≡ some child
      → get_elem? table cur ≡ some me
      → child_index n me.child_ids ≡ max_num_child - 1
      → waitpid world cur (pos n) status options table ≡ done (refuse einval table)
  waitpid_last_slot child_at me_at last =
      waitpid-Asks world cur n status options table a
      ∙ wait_last_slot world cur n table child_at me_at last

-- The table of a reply
abbrev table_of : Outcome Reply → List Process
table_of (done r) = r.table
table_of halt = []

-- A child, in a slot before the last one, has called `_exit`, and `waitpid` of its parent has answered. On
-- the table that this leaves, every further `waitpid` for its pid with arguments that pass the first tests,
-- by whichever process, is refused with EINVAL, and leaves the table.
pub waitpid-waitpid :
    (world world' : ℕ → List Process → List Process) {cur cur' n status status' : ℕ}
    {options options' : ℤ} {table : List Process} {child me me' : Process} {reply : Reply}
    (exitcode : ℕ)
    → Asks cur n status options
    → Family table cur n child me
    → waitpid world cur (pos n) status options (exit n exitcode table) ≡ done reply
    → Asks cur' n status' options'
    → get_elem? reply.table cur' ≡ some me'
    → waitpid world' cur' (pos n) status' options' reply.table ≡ done (refuse einval reply.table)
waitpid-waitpid world world' {cur} {cur'} {n} {status} {status'} {options} {options'} {table}
      {child} {me} {me'} {reply} exitcode a f e a' me_at =
    let (after, e', (x, y, z)) = waitpid-exit world a table exitcode f in
    let same : after ≡ reply.table = ap table_of (sym e' ∙ e) in
    let child_at = sym (ap (λ t. get_elem? t n) same) ∙ x in
    waitpid-waited world' a' reply.table child_at me_at refl
