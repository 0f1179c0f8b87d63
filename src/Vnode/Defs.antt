-- ===== src/Vnode/Defs.antt =====
-- kern/fs/vfs/vnode.c, with the start of `sfs_reclaim` of kern/fs/sfs/sfs_vnode.c. What stands between
-- `lock_acquire` and `lock_release` of `vn_countlock` is one function.
use operating_system.Prelude.{
  ℕ, ◌+◌, ◌-◌, ◌<◌, ◌≡◌, Bool, true, false, ltb, ◌==◌, not, if◌then◌else◌, Outcome, done, ◌>>◌,
  assert,
}

-- `struct vnode`, less its operations and the data of the file system
pub record Vnode : Type 0 where
  pub vn_refcount : ℕ
  pub vn_opencount : ℕ

-- The counts that `vnode_init` gives
abbrev pub init : Vnode
init = record { vn_refcount = 1; vn_opencount = 0 }

-- `vnode_kill`
unfoldable pub kill : Vnode → Outcome Vnode
kill vn =
    assert (vn.vn_refcount == 1)
    >> (assert (vn.vn_opencount == 0) >> done (record { vn_refcount = 0; vn_opencount = 0 }))

unfoldable pub incref : Vnode → Vnode
incref vn = record vn { vn_refcount = vn.vn_refcount + 1 }

-- `vnode_decref` with the lock: true where it goes on to VOP_RECLAIM, the count as it is
unfoldable pub decref : Vnode → Outcome (Bool × Vnode)
decref vn =
    assert (ltb 0 vn.vn_refcount)
    >> (if ltb 1 vn.vn_refcount
        then done (false, record vn { vn_refcount = vn.vn_refcount - 1 })
        else done (true, vn))

-- `sfs_reclaim` with the lock: true where it goes on, and false for EBUSY
unfoldable pub reclaim : Vnode → Outcome (Bool × Vnode)
reclaim vn =
    if not (vn.vn_refcount == 1)
    then (assert (ltb 1 vn.vn_refcount)
        >> done (false, record vn { vn_refcount = vn.vn_refcount - 1 }))
    else done (true, vn)

unfoldable pub incopen : Vnode → Vnode
incopen vn = record vn { vn_opencount = vn.vn_opencount + 1 }

-- `vnode_decopen`: true where it goes on to VOP_CLOSE
unfoldable pub decopen : Vnode → Outcome (Bool × Vnode)
decopen vn =
    assert (ltb 0 vn.vn_opencount)
    >> done (not (ltb 0 (vn.vn_opencount - 1)), record vn { vn_opencount = vn.vn_opencount - 1 })

-- A vnode and those who use it: the references that are held; how often the file is open, of which the
-- references know nothing, since `thread_exit` gives its reference up before it closes; the threads that `vnode_decref` sends to VOP_RECLAIM; those that `sfs_reclaim` has let pass;
-- the references of those for whom it then failed; and whether the vnode is gone.
pub record System : Type 0 where
  pub vnode : Vnode
  pub held : ℕ
  pub in_open : ℕ
  pub leaving : ℕ
  pub passed : ℕ
  pub lost : ℕ
  pub gone : Bool

-- One step of some thread, in any order. `find` is `sfs_loadvnode` that finds the vnode in the table, with
-- its VOP_INCREF; it stands there until it is gone, also while a thread that was let pass is at work.
-- `finish` is the end of `sfs_reclaim`: it takes the vnode from the table, and calls VOP_KILL.
pub data Step : System → System → Type 0 where
  share :
      {s : System} → 0 < s.held → Step s (record s { vnode = incref s.vnode; held = s.held + 1 })
  find :
      {s : System}
      → s.gone ≡ false
      → Step s (record s { vnode = incref s.vnode; held = s.held + 1 })
  drop :
      {s : System} {vn : Vnode}
      → 0 < s.held
      → decref s.vnode ≡ done (false, vn)
      → Step s (record s { vnode = vn; held = s.held - 1 })
  leave :
      {s : System} {vn : Vnode}
      → 0 < s.held
      → decref s.vnode ≡ done (true, vn)
      → Step s (record s { vnode = vn; held = s.held - 1; leaving = s.leaving + 1 })
  busy :
      {s : System} {vn : Vnode}
      → 0 < s.leaving
      → reclaim s.vnode ≡ done (false, vn)
      → Step s (record s { vnode = vn; leaving = s.leaving - 1 })
  pass :
      {s : System} {vn : Vnode}
      → 0 < s.leaving
      → reclaim s.vnode ≡ done (true, vn)
      → Step s (record s { vnode = vn; leaving = s.leaving - 1; passed = s.passed + 1 })
  finish :
      {s : System} {vn : Vnode}
      → 0 < s.passed
      → kill s.vnode ≡ done vn
      → Step s (record s { vnode = vn; passed = s.passed - 1; gone = true })
  fail :
      {s : System} → 0 < s.passed → Step s (record s { passed = s.passed - 1; lost = s.lost + 1 })
  opened :
      {s : System}
      → 0 < s.held
      → Step s (record s { vnode = incopen s.vnode; in_open = s.in_open + 1 })
  closed :
      {s : System} {vn : Vnode} {last : Bool}
      → 0 < s.in_open
      → decopen s.vnode ≡ done (last, vn)
      → Step s (record s { vnode = vn; in_open = s.in_open - 1 })

pub data Run : System → System → Type 0 where
  stop : {s : System} → Run s s
  next : {s t u : System} → Step s t → Run t u → Run s u

-- A vnode that was loaded, with one reference
abbrev pub loaded : System
loaded = record {
  vnode = init;
  held = 1;
  in_open = 0;
  leaving = 0;
  passed = 0;
  lost = 0;
  gone = false;
}
