-- ===== src/Prelude/Arith.antt =====
-- Facts about remainders, and integers for the C `int` arguments that a guard compares with 0.
use Prim.Native.Nat.{ℕ, ◌+◌, ◌-◌, ◌%◌, ◌≤◌, ◌<◌}
use mathlib.Core.Path.{◌≡◌, ◌∙◌}
use mathlib.Core.Logic.{◌≢◌, ◌⊎◌, inl, inr}
use native.Mathlib.Nat.{mod-eq_of_lt, mod-eq-sub-mod}
use native.Mathlib.Decide.{dec_lt}
use native.Mathlib.Omega.{arith}

-- `negsuc n` is -(n + 1).
pub data ℤ : Type 0 where
  pos : ℕ → ℤ
  negsuc : ℕ → ℤ

-- A step of less than one round from inside a ring: it stays, or comes round once.
pub wrap_cases :
    {h j c : ℕ}
    → h < c
    → j ≤ c
    → ((h + j < c) × ((h + j) % c ≡ h + j)) ⊎ ((c ≤ h + j) × ((h + j) % c ≡ h + j - c))
wrap_cases {h} {j} {c} p q = elim (dec_lt (h + j) c) [
  | yes lt ↦ inl (lt, mod-eq_of_lt lt)
  | no ge ↦ inr (
    omega arith,
    mod-eq-sub-mod {n = h + j} {m = c} (omega arith)
        ∙ mod-eq_of_lt {n = h + j - c} {m = c} (omega arith),
  )
]

-- Two different steps of less than one round end at different places.
pub wrap_ne : {h j k c : ℕ} → h < c → j < k → k < c → (h + j) % c ≢ (h + k) % c
wrap_ne {h} {j} {k} {c} p q r = omega (
  arith,
  wrap_cases {h = h} {j = j} {c = c} p (omega arith),
  wrap_cases {h = h} {j = k} {c = c} p (omega arith),
)
