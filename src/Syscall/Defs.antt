-- ===== src/Syscall/Defs.antt =====
-- kern/arch/mips/mips/syscall.c: `waitpid`, `_exit` and `getpid` on the process table.
use operating_system.Prelude.{
  ℕ, zero, suc, ◌+◌, ◌-◌, ◌%◌, ◌^◌, Bool, true, false, not, Option, none, some, List, [], ◌∷◌, ℤ,
  pos, negsuc, ltb, leb, ◌==◌, if◌then◌else◌, get_elem?, set, modify, Outcome, done, halt, ◌>>=◌,
  Code, ok, einval, efault,
}
use operating_system.Thread.Defs.{Process, p_table_size, max_num_child, is_unused}

-- What `waitpid` returns: an error code, or the -1 of the last line.
pub data Answer : Type 0 where
  code : Code → Answer
  minus_one : Answer

-- The return value, what `*retval` gets, what is written to `*status`, and the table.
pub record Reply : Type 0 where
  pub answer : Answer
  pub retval : ℤ
  pub status : Option ℕ
  pub table : List Process

-- `*retval = -1; status = NULL; return c;`
abbrev pub refuse : Code → List Process → Reply
refuse c table = record { answer = code c; retval = negsuc 0; status = none; table = table }

unfoldable pub entry : List Process → ℕ → Outcome Process
entry table i = elim (get_elem? table i) [ none ↦ halt | some p ↦ done p ]

abbrev pub is_pid : ℕ → ℤ → Bool
is_pid n (pos m) = n == m
is_pid n (negsuc m) = false

-- The loop over the children: the slot of the pid, or `MAX_NUM_CHILD` behind the last one.
unfoldable pub child_index : ℕ → List ℤ → ℕ
child_index n [] = 0
child_index n (c ∷ cs) = if is_pid n c then 0 else suc (child_index n cs)

-- `childIDs[j] = -1; numOfChild -= 1;`: a write past the block of the children is a halt.
unfoldable pub forget : ℕ → Process → Outcome Process
forget j p =
    if ltb j max_num_child
    then done
        (record p { child_ids = set p.child_ids j (negsuc 0); num_of_child = p.num_of_child - 1 })
    else halt

abbrev pub waited : Process → Process
waited p = record p { has_been_waited = 1 }

abbrev pub put_entry : List Process → ℕ → Process → List Process
put_entry table i p = modify table i (λ _. p)

-- What a parent `cur` does when its child `n`, at `j`, has exited.
unfoldable pub collect : ℕ → ℕ → ℕ → List Process → Outcome Reply
collect cur n j table = do
  child ← entry table n
  me ← entry table cur
  me' ← forget j me
  done (record {
    answer = code ok;
    retval = pos n;
    status = some child.exit_code;
    table = modify (put_entry table cur me') n waited;
  })

abbrev pub give_up : ℕ → List Process → Reply
give_up n table = record { answer = minus_one; retval = pos n; status = none; table = table }

-- The loop of thirty sleeps, with `rounds` left: `world s` is what the other threads make of the table
-- in the sleep `s`.
unfoldable pub wait_loop :
    (ℕ → List Process → List Process) → ℕ → ℕ → ℕ → ℕ → ℕ → List Process → Outcome Reply
wait_loop world zero s cur n j table = done (give_up n table)
wait_loop world (suc rounds) s cur n j table =
    let table' = world s table in
    let later = wait_loop world rounds (s + 1) cur n j table' in
    (entry table' n >>= λ child. if child.status == 2 then collect cur n j table' else later)

unfoldable pub sleeps : ℕ
sleeps = 30

-- `waitpid` behind its first tests, for the pid `n`
unfoldable pub wait_child : (ℕ → List Process → List Process) → ℕ → ℕ → List Process → Outcome Reply
wait_child world cur n table = do
  child ← entry table n
  me ← entry table cur
  let j = child_index n me.child_ids
  if is_unused child
      then done (refuse einval table)
      else if child.has_been_waited == 1
      then done (refuse einval table)
      else if j == max_num_child - 1
      then done (refuse einval table)
      else if ltb me.num_of_child 1
      then done (refuse einval table)
      else if child.status == 1
      then wait_loop world sleeps 0 cur n j table
      else if child.status == 2
      then collect cur n j table
      else done (give_up n table)

-- The tests of the pointer `status`, an address.
abbrev pub bad_status : ℕ → Bool
bad_status status =
    if status == 0
    then true
    else if status == 2 ^ 31
    then true
    else if status == 2 ^ 30
    then true
    else not (status % 2 == 0)

-- `waitpid` in the process `cur`: a pid of 100 or more, a bad pointer, its own pid, or options are refused.
-- A negative pid reads in front of the table.
unfoldable pub waitpid :
    (ℕ → List Process → List Process) → ℕ → ℤ → ℕ → ℤ → List Process → Outcome Reply
waitpid world cur (pos n) status options table =
    if leb p_table_size n
    then done (refuse einval table)
    else if bad_status status
    then done (refuse efault table)
    else if n == cur
    then done (refuse einval table)
    else if not (is_pid 0 options)
    then done (refuse einval table)
    else wait_child world cur n table
waitpid world cur (negsuc n) status options table =
    if bad_status status
    then done (refuse efault table)
    else if not (is_pid 0 options)
    then done (refuse einval table)
    else halt

-- `_exit`, with the line of `thread_exit` on the table: the exit code, and the status 2.
unfoldable pub exit : ℕ → ℕ → List Process → List Process
exit cur exitcode table = modify table cur (λ p. record p { exit_code = exitcode; status = 2 })
