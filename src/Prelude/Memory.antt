-- ===== src/Prelude/Memory.antt =====
-- Tables of structures changed in place, the kernel's addresses, physical memory, and the interrupt
-- level of `splhigh`.
use Prim.Native.Nat.{ℕ, zero, suc, ◌+◌, ◌-◌, ◌%◌, ◌^◌}
use mathlib.Core.Path.{◌≡◌, refl, ap, sym, ◌∙◌}
use mathlib.Core.Bool.{◌&&◌, true, false}
use native.Mathlib.Decide.{ℕ_discrete}
use mathlib.Core.Logic.{◌≢◌}
use mathlib.Core.List.{List, [], ◌∷◌}
use mathlib.Core.Option.{Option, none, some}
use native.Mathlib.Omega.{arith}
use operating_system.Prelude.Tests.{ltb, leb, ◌==◌, ==_iff, if◌then◌else◌}
use operating_system.Prelude.Lists.{length, get_elem?}

module _ {ℓ} {A : Type ℓ} where
  -- `t[i]` changed in place
  abbrev pub modify : List A → ℕ → (A → A) → List A
  modify [] i f = []
  modify (x ∷ xs) zero f = f x ∷ xs
  modify (x ∷ xs) (suc i) f = x ∷ modify xs i f

  abbrev pub map_option : (A → A) → Option A → Option A
  map_option f none = none
  map_option f (some x) = some (f x)

  pub length-modify : (xs : List A) (i : ℕ) (f : A → A) → length (modify xs i f) ≡ length xs
  length-modify [] i f = refl
  length-modify (x ∷ xs) zero f = refl
  length-modify (x ∷ xs) (suc i) f = ap suc (length-modify xs i f)

  pub get_elem?-modify_self :
      (xs : List A) (i : ℕ) (f : A → A)
      → get_elem? (modify xs i f) i ≡ map_option f (get_elem? xs i)
  get_elem?-modify_self [] i f = refl
  get_elem?-modify_self (x ∷ xs) zero f = refl
  get_elem?-modify_self (x ∷ xs) (suc i) f = get_elem?-modify_self xs i f

  pub get_elem?-modify_ne :
      (xs : List A) (i j : ℕ) (f : A → A) → i ≢ j → get_elem? (modify xs i f) j ≡ get_elem? xs j
  get_elem?-modify_ne [] i j f h = refl
  get_elem?-modify_ne (x ∷ xs) zero zero f h = absurd (h refl)
  get_elem?-modify_ne (x ∷ xs) zero (suc j) f h = refl
  get_elem?-modify_ne (x ∷ xs) (suc i) zero f h = refl
  get_elem?-modify_ne (x ∷ xs) (suc i) (suc j) f h = get_elem?-modify_ne xs i j f (omega arith)

  -- The two in one: what stands at `j` after a change at `i`.
  pub modify_at :
      (xs : List A) (i j : ℕ) (f : A → A) {x : A}
      → get_elem? xs j ≡ some x
      → get_elem? (modify xs i f) j ≡ some (if i == j then f x else x)
  modify_at xs i j f {x} at = elim (ℕ_discrete i j) [
    | yes same ↦
        let test : (i == j) ≡ true = (==_iff i j).1 same in
        rw test (
          ap (get_elem? (modify xs i f)) (sym same)
          ∙ get_elem?-modify_self xs i f
          ∙ ap (λ k. map_option f (get_elem? xs k)) same
          ∙ ap (map_option f) at)
    | no ne ↦
        let test : (i == j) ≡ false = ground arith in rw test (get_elem?-modify_ne xs i j f ne ∙ at)
  ]

abbrev pub page_size : ℕ
page_size = 4096

-- MIPS_KSEG0, where physical memory is seen by the kernel.
abbrev pub kseg0 : ℕ
kseg0 = 2 ^ 31

-- Addresses are 32-bit words.
abbrev pub word : ℕ → ℕ
word n = n % 2 ^ 32

abbrev pub paddr_to_kvaddr : ℕ → ℕ
paddr_to_kvaddr p = word (p + kseg0)

abbrev pub kvaddr_to_paddr : ℕ → ℕ
kvaddr_to_paddr v = word (v + 2 ^ 32 - kseg0)

-- `addr & PAGE_FRAME`
abbrev pub page_frame : ℕ → ℕ
page_frame a = a - a % page_size

-- `for (k=0; k<4096; k++) temp[k] = 0;` at the kernel's view of the page at `p`
abbrev pub zero_page : ℕ → (ℕ → ℕ) → ℕ → ℕ
zero_page p ram a = if leb p a && ltb a (p + page_size) then 0 else ram a

abbrev pub spl_high : ℕ
spl_high = 15
