-- ===== src/Coremap/Tests.antt =====
-- The page allocator at a core map of three pages.
use operating_system.Prelude.{
  ℕ, zero, suc, ◌+◌, ◌*◌, ◌%◌, ◌≤◌, ◌<◌, ◌≡◌, ◌⊎◌, refl, none, some, [], ◌∷◌, true, arith,
  get_elem?, done,
}
use operating_system.Coremap.Defs.{Entry, Vm, take_page, alloc_kpages, free_kpages, claim}
use operating_system.Coremap.Search.{NoneFree, FirstRun}
use operating_system.Coremap.Pages.{IsValid, Taken, take_page-Taken, SameUse, free_kpages-take_page}
use operating_system.Coremap.Runs.{TakenRun, alloc_kpages-TakenRun}

abbrev entry : ℕ → ℕ → Entry
entry pa state = record { pa = pa; state = state; follower = 0; york = b'n'; thread_as = none }

-- The first page is in use; the fourth entry is past the end.
abbrev three : Vm
three = record {
  booted = true;
  firstpaddr = 0x80000;
  lastpaddr = 0x80000;
  coremap = entry 0x5000 1 ∷ entry 0x6000 0 ∷ entry 0x7000 0 ∷ entry 0 1 ∷ [];
  coremapsize = 3;
  ram = λ a. a;
}

three-IsValid : IsValid three
three-IsValid = record {
  up = refl;
  covered = omega arith;
  distinct = distinct_of;
  reachable = reachable_of;
  idle = idle_of;
}
  where
    reachable_of :
        (i : ℕ) (e : Entry)
        → i < 3
        → get_elem? three.coremap i ≡ some e
        → (0 < e.pa) × (e.pa + 4096 ≤ 2147483648) × (e.pa % 4096 ≡ 0)
    reachable_of zero e lt at = ground arith
    reachable_of (suc zero) e lt at = ground arith
    reachable_of (suc (suc zero)) e lt at = ground arith
    reachable_of (suc (suc (suc i))) e lt at = absurd (omega arith)

    idle_of :
        (i : ℕ) (e : Entry)
        → i < 3
        → get_elem? three.coremap i ≡ some e
        → e.state ≡ 0
        → e.follower ≡ 0
    idle_of zero e lt at = ground arith
    idle_of (suc zero) e lt at = ground arith
    idle_of (suc (suc zero)) e lt at = ground arith
    idle_of (suc (suc (suc i))) e lt at = absurd (omega arith)

    place : ℕ → ℕ
    place i = 0x5000 + i * 0x1000

    at_place : (i : ℕ) (e : Entry) → i < 3 → get_elem? three.coremap i ≡ some e → e.pa ≡ place i
    at_place zero e lt at = ground arith
    at_place (suc zero) e lt at = ground arith
    at_place (suc (suc zero)) e lt at = ground arith
    at_place (suc (suc (suc i))) e lt at = absurd (omega arith)

    distinct_of :
        (i j : ℕ) (e f : Entry)
        → i < 3
        → j < 3
        → get_elem? three.coremap i ≡ some e
        → get_elem? three.coremap j ≡ some f
        → e.pa ≡ f.pa
        → i ≡ j
    distinct_of i j e f p q g h same = omega (arith, at_place i e p g, at_place j f q h)

take_page-Taken_example :
    (addr : ℕ) × (m' : Vm) × (take_page b'u' none three ≡ done (addr, m'))
    × (((addr ≡ 0) × (m' ≡ three) × NoneFree three.coremap 0 3)
        ⊎ ((i : ℕ) × (e : Entry) × Taken b'u' none three addr m' i e))
take_page-Taken_example = take_page-Taken b'u' none three-IsValid

free_kpages-take_page_example :
    (m'' : Vm) × (free_kpages 0x80006000 (claim b'u' none 1 three) ≡ done m'')
    × IsValid m''
    × ((j : ℕ) → SameUse (get_elem? three.coremap j) (get_elem? m''.coremap j))
unfolding take_page
free_kpages-take_page_example =
    free_kpages-take_page {m' = claim b'u' none 1 three} b'u' none {addr = 0x80006000} three-IsValid
      refl (omega arith)

alloc_kpages-TakenRun_example :
    (addr : ℕ) × (m' : Vm) × (alloc_kpages 2 none three ≡ done (addr, m'))
    × (((addr ≡ 0) × (m' ≡ three) × FirstRun 2 three.coremap 0 3 none)
        ⊎ ((s : ℕ) × (e : Entry) × TakenRun 2 three addr m' s e))
alloc_kpages-TakenRun_example =
    alloc_kpages-TakenRun 2 none three-IsValid (omega arith) (omega arith)
