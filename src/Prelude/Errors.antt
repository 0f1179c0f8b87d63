-- ===== src/Prelude/Errors.antt =====
-- What a call into the kernel comes to: a result, or a halt of the machine. A failed `assert`, a
-- call of `panic` and a read of memory that was never written are halts. Error codes are results.
use mathlib.Core.Path.{◌≡◌, refl}
use mathlib.Core.Logic.{◌⊎◌, inl, inr}
use mathlib.Core.Bool.{Bool, true, false}

pub data Outcome {ℓ} (A : Type ℓ) : Type ℓ where
  done : A → Outcome A
  halt : Outcome A

infixl 5 ◌>>=◌ ◌>>◌
abbrev pub ◌>>=◌ {ℓ κ} : {A : Type ℓ} {B : Type κ} → Outcome A → (A → Outcome B) → Outcome B
done a >>= f = f a
halt >>= f = halt

abbrev pub ◌>>◌ {ℓ} : {B : Type ℓ} → Outcome (Unit {0}) → Outcome B → Outcome B
m >> k = m >>= λ _. k

-- A call that goes on to a result had a result itself.
pub >>=-eq-done {ℓ κ} :
    {A : Type ℓ} {B : Type κ} (m : Outcome A) (f : A → Outcome B) {b : B}
    → (m >>= f) ≡ done b
    → (a : A) × (m ≡ done a) × (f a ≡ done b)
>>=-eq-done (done a) f h = (a, refl, h)
>>=-eq-done halt f h = cc

pub Outcome-cases {ℓ} : {A : Type ℓ} (o : Outcome A) → ((a : A) × (o ≡ done a)) ⊎ (o ≡ halt)
Outcome-cases (done a) = inl (a, refl)
Outcome-cases halt = inr refl

-- assert(c);
abbrev pub assert : Bool → Outcome (Unit {0})
assert true = done tt
assert false = halt

-- An `int` result: 0, or one of the codes of kern/errno.h that the modelled code returns.
pub data Code : Type 0 where
  ok einval efault enomem eagain eunimp enospc eio : Code
