-- ===== src/Vnode/Counts.antt =====
-- kern/fs/vfs/vnode.c: in every order of steps the counts of a vnode are right.
use operating_system.Prelude.{
  ◌+◌, ◌-◌, ◌≤◌, ◌<◌, ◌≡◌, ◌⊎◌, inl, inr, refl, Bool, true, false, arith, ltb, ◌==◌, not,
  Bool-cases, done, halt,
}
use operating_system.Vnode.Defs.{
  Vnode, System, Step, share, find, drop, leave, busy, pass, finish, fail, opened, closed, Run,
  stop, next, loaded, kill, incref, decref, reclaim, incopen, decopen,
}

-- The count is that of the references, with those of the threads that reclaim the vnode or failed to, of
-- which there is one at most; the other count is that of the files; a vnode that is gone has none of these.
pub record IsCounted (s : System) : Type 0 where
  pub references : s.vnode.vn_refcount ≡ s.held + s.leaving + s.passed + s.lost
  pub opens : s.vnode.vn_opencount ≡ s.in_open
  pub one : s.leaving + s.passed + s.lost ≤ 1
  pub last : s.gone ≡ true → (s.held + s.leaving + s.passed + s.lost ≡ 0) × (s.in_open ≡ 0)

-- What the operations give
decref_lem :
    (vn : Vnode) (b : Bool) (vn' : Vnode)
    → decref vn ≡ done (b, vn')
    → (vn'.vn_opencount ≡ vn.vn_opencount)
      × (((b ≡ false) × (1 < vn.vn_refcount) × (vn'.vn_refcount ≡ vn.vn_refcount - 1))
          ⊎ ((b ≡ true) × (vn.vn_refcount ≡ 1) × (vn'.vn_refcount ≡ 1)))
unfolding decref
decref_lem vn b vn' e = ground (arith, e)

reclaim_lem :
    (vn : Vnode) (b : Bool) (vn' : Vnode)
    → reclaim vn ≡ done (b, vn')
    → (vn'.vn_opencount ≡ vn.vn_opencount)
      × (((b ≡ false) × (1 < vn.vn_refcount) × (vn'.vn_refcount ≡ vn.vn_refcount - 1))
          ⊎ ((b ≡ true) × (vn.vn_refcount ≡ 1) × (vn'.vn_refcount ≡ 1)))
unfolding reclaim
reclaim_lem vn b vn' e = ground (arith, e)

kill_lem :
    (vn vn' : Vnode)
    → kill vn ≡ done vn'
    → (vn.vn_refcount ≡ 1) × (vn.vn_opencount ≡ 0) × (vn'.vn_refcount ≡ 0) × (vn'.vn_opencount ≡ 0)
unfolding kill
kill_lem vn vn' e = ground (arith, e)

decopen_lem :
    (vn : Vnode) (b : Bool) (vn' : Vnode)
    → decopen vn ≡ done (b, vn')
    → (vn'.vn_refcount ≡ vn.vn_refcount)
      × (vn'.vn_opencount ≡ vn.vn_opencount - 1)
      × (0 < vn.vn_opencount)
unfolding decopen
decopen_lem vn b vn' e = ground (arith, e)

step-IsCounted : {s t : System} → IsCounted s → Step s t → IsCounted t
unfolding incref incopen
step-IsCounted {s} h (share some) = record {
  references = omega (arith, h.references);
  opens = h.opens;
  one = h.one;
  last = λ g. absurd (omega (arith, h.last g, some));
}
step-IsCounted {s} h (find there) = record {
  references = omega (arith, h.references);
  opens = h.opens;
  one = h.one;
  last = λ g. absurd (ground (arith, there, g));
}
step-IsCounted {s} h (drop {vn = vn} some e) =
    let (same, answer) = decref_lem s.vnode false vn e in
    elim answer [
      | inl (_, many, less) ↦ record {
        references = omega (arith, less, many, h.references, some);
        opens = omega (arith, same, h.opens);
        one = h.one;
        last = λ g. absurd (omega (arith, h.last g, some));
      }
      | inr (wrong, _, _) ↦ absurd (ground (arith, wrong))
    ]
step-IsCounted {s} h (leave {vn = vn} some e) =
    let (same, answer) = decref_lem s.vnode true vn e in
    elim answer [
      | inl (wrong, _, _) ↦ absurd (ground (arith, wrong))
      | inr (_, one, still) ↦ record {
        references = omega (arith, one, still, h.references, some);
        opens = omega (arith, same, h.opens);
        one = omega (arith, one, h.references, some);
        last = λ g. absurd (omega (arith, h.last g, some));
      }
    ]
step-IsCounted {s} h (busy {vn = vn} some e) =
    let (same, answer) = reclaim_lem s.vnode false vn e in
    elim answer [
      | inl (_, many, less) ↦ record {
        references = omega (arith, less, many, h.references, some);
        opens = omega (arith, same, h.opens);
        one = omega (arith, h.one);
        last = λ g. absurd (omega (arith, h.last g, some));
      }
      | inr (wrong, _, _) ↦ absurd (ground (arith, wrong))
    ]
step-IsCounted {s} h (pass {vn = vn} some e) =
    let (same, answer) = reclaim_lem s.vnode true vn e in
    elim answer [
      | inl (wrong, _, _) ↦ absurd (ground (arith, wrong))
      | inr (_, one, still) ↦ record {
        references = omega (arith, one, still, h.references, some);
        opens = omega (arith, same, h.opens);
        one = omega (arith, h.one, some);
        last = λ g. absurd (omega (arith, h.last g, some));
      }
    ]
step-IsCounted {s} h (finish {vn = vn} some e) =
    let (one, shut, count, opens) = kill_lem s.vnode vn e in
    record {
      references = omega (arith, one, count, h.references, some);
      opens = omega (arith, shut, opens, h.opens);
      one = omega (arith, h.one);
      last = λ g. (omega (arith, one, h.references, some), omega (arith, shut, h.opens));
    }
step-IsCounted {s} h (fail some) = record {
  references = omega (arith, h.references, some);
  opens = h.opens;
  one = omega (arith, h.one, some);
  last = λ g. absurd (omega (arith, h.last g, some));
}
step-IsCounted {s} h (opened some) = record {
  references = h.references;
  opens = omega (arith, h.opens);
  one = h.one;
  last = λ g. absurd (omega (arith, h.last g, some));
}
step-IsCounted {s} h (closed {vn = vn} {last = b} some e) =
    let (same, less, open_some) = decopen_lem s.vnode b vn e in
    record {
      references = omega (arith, same, h.references);
      opens = omega (arith, less, h.opens);
      one = h.one;
      last = λ g. absurd (omega (arith, h.last g, some));
    }

from-IsCounted : {s t : System} → IsCounted s → Run s t → IsCounted t
from-IsCounted h stop = h
from-IsCounted h (next step run) = from-IsCounted (step-IsCounted h step) run

-- In every run of the calls of `vnode_incref`, `vnode_decref`, `sfs_reclaim`, `vnode_kill`, `vnode_incopen`
-- and `vnode_decopen`, in any order, on a vnode that was loaded, where nothing comes between the search of
-- `sfs_loadvnode` and its VOP_INCREF, nor between the removal from the table and VOP_KILL: the counts of the
-- vnode are those of the references and of the files that are open; at most one thread reclaims it or has
-- failed to; and when it is gone, nobody has a reference, none reclaims it, and no file is open.
pub Run-IsCounted : {s : System} → Run loaded s → IsCounted s
Run-IsCounted run =
    from-IsCounted
      (record {
        references = refl;
        opens = refl;
        one = omega arith;
        last = λ g. absurd (ground (arith, g));
      })
      run

-- Which of the calls that the users of the vnode can make end.
pub record Ends (s : System) : Type 0 where
  pub decref_ends : 0 < s.held → (b : Bool) × (vn : Vnode) × (decref s.vnode ≡ done (b, vn))
  pub reclaim_ends : 0 < s.leaving → (b : Bool) × (vn : Vnode) × (reclaim s.vnode ≡ done (b, vn))
  pub decopen_ends : 0 < s.in_open → (vn : Vnode) × (decopen s.vnode ≡ done (s.in_open == 1, vn))
  pub kill_ends :
      0 < s.passed
      → ((s.held ≡ 0) × (s.in_open ≡ 0) × ((vn : Vnode) × (kill s.vnode ≡ done vn)))
        ⊎ (((0 < s.held) ⊎ (0 < s.in_open)) × (kill s.vnode ≡ halt))

-- In every run of the calls on the counts of a vnode, in any order, on one that was loaded, where nothing
-- comes between the search of `sfs_loadvnode` and its VOP_INCREF, nor between the removal from the table and
-- VOP_KILL: who holds a reference can call `vnode_decref`, whom it sends to VOP_RECLAIM can call
-- `sfs_reclaim`, and who has the file open can call `vnode_decopen`, without a failed assertion on the
-- counts; the last goes on to VOP_CLOSE exactly for the last open. Who was let pass can call `vnode_kill` if
-- nobody has a reference by then and no file is open, and an assertion fails otherwise.
pub Run-Ends : {s : System} → Run loaded s → Ends s
unfolding decref reclaim kill decopen
Run-Ends {s} run =
    let h = Run-IsCounted run in
    record {
      decref_ends = λ held. elim (Bool-cases (ltb 1 s.vnode.vn_refcount)) [
        | inl many ↦
            let some : ltb 0 s.vnode.vn_refcount ≡ true = ground (arith, many) in
            (false, record s.vnode { vn_refcount = s.vnode.vn_refcount - 1 }, rw (some, many) refl)
        | inr few ↦
            let some : ltb 0 s.vnode.vn_refcount ≡ true = ground (arith, h.references, held) in
            (true, s.vnode, rw (some, few) refl)
      ];
      reclaim_ends = λ some. elim (Bool-cases (s.vnode.vn_refcount == 1)) [
        | inl one ↦ (true, s.vnode, rw one refl)
        | inr other ↦
            let many : ltb 1 s.vnode.vn_refcount ≡ true =
              ground (arith, h.references, some, other) in
            (false, record s.vnode { vn_refcount = s.vnode.vn_refcount - 1 }, rw (other, many) refl)
      ];
      decopen_ends = λ some.
          let is_open : ltb 0 s.vnode.vn_opencount ≡ true = ground (arith, h.opens, some) in
          let last : not (ltb 0 (s.vnode.vn_opencount - 1)) ≡ (s.in_open == 1) =
            ground (arith, h.opens, some) in
          (record s.vnode { vn_opencount = s.vnode.vn_opencount - 1 }, rw (is_open, last) refl);
      kill_ends = λ some. elim (Bool-cases (s.vnode.vn_refcount == 1)) [
        | inr more ↦ inr (inl (ground (arith, h.references, h.one, some, more)), rw more refl)
        | inl one ↦ elim (Bool-cases (s.vnode.vn_opencount == 0)) [
          | inl shut ↦ inl (
            ground (arith, h.references, some, one),
            ground (arith, h.opens, shut),
            (record { vn_refcount = 0; vn_opencount = 0 }, rw (one, shut) refl),
          )
          | inr is_open ↦ inr (inr (ground (arith, h.opens, is_open)), rw (one, is_open) refl)
        ]
      ];
    }
