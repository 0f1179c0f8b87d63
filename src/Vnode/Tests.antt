-- ===== src/Vnode/Tests.antt =====
-- A vnode that is found again by another thread while the first one is about to reclaim it.
use operating_system.Prelude.{◌≡◌, refl, true, false, arith, halt}
use operating_system.Vnode.Defs.{
  System, find, leave, busy, pass, finish, opened, Run, stop, next, loaded, decref, reclaim, kill,
  incref, incopen,
}
use operating_system.Vnode.Counts.{IsCounted, Run-IsCounted, Ends, Run-Ends}

-- The reference of the other thread alone is left.
abbrev found_again : System
found_again = record {
  vnode = record { vn_refcount = 1; vn_opencount = 0 };
  held = 1;
  in_open = 0;
  leaving = 0;
  passed = 0;
  lost = 0;
  gone = false;
}

found_again-Run : Run loaded found_again
unfolding decref reclaim incref
found_again-Run =
    next (leave (omega arith) refl) (next (find refl) (next (busy (omega arith) refl) stop))

reclaimed-Run : (s : System) × Run loaded s × (s.gone ≡ true)
unfolding decref reclaim kill
reclaimed-Run = (
  _,
  next (leave (omega arith) refl)
      (next (pass (omega arith) refl) (next (finish (omega arith) refl) stop)),
  refl,
)

Run-IsCounted_example : IsCounted found_again
Run-IsCounted_example = Run-IsCounted found_again-Run

-- The last reference is given up and the vnode let pass, before the file is closed.
abbrev still_open : System
still_open = record {
  vnode = record { vn_refcount = 1; vn_opencount = 1 };
  held = 0;
  in_open = 1;
  leaving = 0;
  passed = 1;
  lost = 0;
  gone = false;
}

still_open-Run : Run loaded still_open
unfolding decref reclaim incopen
still_open-Run =
    next (opened (omega arith))
      (next (leave (omega arith) refl) (next (pass (omega arith) refl) stop))

killed_early : kill still_open.vnode ≡ halt
unfolding kill
killed_early = refl

Run-Ends_example : Ends still_open
Run-Ends_example = Run-Ends still_open-Run
