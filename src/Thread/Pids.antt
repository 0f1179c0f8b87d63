-- ===== src/Thread/Pids.antt =====
-- kern/thread/thread.c: the pid that `thread_create` gives.
use mathlib.Core.Path.{subst}
use native.Mathlib.Decide.{dec_lt}
use operating_system.Prelude.{
  ℕ, zero, suc, ◌+◌, ◌-◌, ◌≤◌, ◌<◌, ◌≡◌, refl, true, false, Option, none, some, List, arith, length,
  get_elem?, get_elem?_of_lt, modify, ltb, Bool-cases, inl, inr, done,
}
use operating_system.Thread.Defs.{Process, p_table_size, is_unused, free_slot, create_pid, started}

abbrev pub Used : List Process → ℕ → Type 0
Used table j = (p : Process) × (get_elem? table j ≡ some p) × (is_unused p ≡ false)

-- What the search from the slot `i` on finds.
abbrev pub FirstFree : List Process → ℕ → Option ℕ → Type 0
FirstFree table i none = (j : ℕ) → i ≤ j → j < p_table_size → Used table j
FirstFree table i (some s) =
    (i ≤ s)
    × (s < p_table_size)
    × ((p : Process) × (get_elem? table s ≡ some p) × (is_unused p ≡ true))
    × ((j : ℕ) → i ≤ j → j < s → Used table j)

earlier-FirstFree :
    (table : List Process) (i : ℕ) (r : Option ℕ)
    → Used table i
    → FirstFree table (i + 1) r
    → FirstFree table i r
earlier-FirstFree table i none used f = λ j ge lt. elim (dec_lt i j) [
  | yes l ↦ f j (omega arith) lt
  | no nl ↦ (let e : i ≡ j = omega arith in subst (Used table) e used)
]
earlier-FirstFree table i (some s) used (ge, lt, free, before) = (
  omega arith,
  lt,
  free,
  λ j g l. elim (dec_lt i j) [
    | yes m ↦ before j (omega arith) l
    | no nm ↦ (let e : i ≡ j = omega arith in subst (Used table) e used)
  ],
)

free_slot-FirstFree :
    (n i : ℕ) (table : List Process)
    → length table ≡ p_table_size
    → i < p_table_size
    → p_table_size ≤ n + i
    → (r : Option ℕ) × (free_slot n i table ≡ done r) × FirstFree table i r
unfolding free_slot
free_slot-FirstFree zero i table len lt fuel = absurd (omega arith)
free_slot-FirstFree (suc n) i table len lt fuel =
    let (p, at) = get_elem?_of_lt table i (omega arith) in
    elim (Bool-cases (is_unused p)) [
      | inl free ↦ (
        some i,
        rw (free_slot, at, free),
        (omega arith, lt, (p, at, free), λ j g l. absurd (omega arith)),
      )
      | inr used ↦ elim (dec_lt (i + 1) p_table_size) [
        | yes l ↦
            let (r, e, f) = free_slot-FirstFree n (i + 1) table len l (omega arith) in
            let more : ltb i (p_table_size - 1) ≡ true = ground arith in
            (r, rw (free_slot, at, used, more, e), earlier-FirstFree table i r (p, at, used) f)
        | no nl ↦
            let last : ltb i (p_table_size - 1) ≡ false = ground arith in
            (
              none,
              rw (free_slot, at, used, last),
              λ j ge l. let e : i ≡ j = omega arith in subst (Used table) e (p, at, used),
            )
      ]
    ]

abbrev pub Created : List Process → Option ℕ → List Process → Type 0
Created table none table' = table' ≡ table
Created table (some s) table' = table' ≡ modify table s (started s)

abbrev pub Creates : List Process → Type 0
Creates table =
    (r : Option ℕ) × (table' : List Process) × (create_pid table ≡ done (r, table'))
    × FirstFree table 1 r
    × Created table r table'

create_pid-Creates :
    (table : List Process) (r : Option ℕ)
    → free_slot p_table_size 1 table ≡ done r
    → FirstFree table 1 r
    → Creates table
unfolding create_pid
create_pid-Creates table none e f = (none, table, rw e, f, refl)
create_pid-Creates table (some s) e f = (some s, modify table s (started s), rw e, f, refl)

-- The pid that `thread_create` gives: the search in a table of full size always ends. It gives the
-- first slot from 1 on that no process has, and marks that slot alone; or none, with the table as it
-- was, where every slot from 1 on is used.
pub create_pid-FirstFree :
    (table : List Process)
    → length table ≡ p_table_size
    → (r : Option ℕ) × (table' : List Process) × (create_pid table ≡ done (r, table'))
      × FirstFree table 1 r
      × Created table r table'
create_pid-FirstFree table len =
    let (r, e, f) = free_slot-FirstFree p_table_size 1 table len (omega arith) (omega arith) in
    create_pid-Creates table r e f
