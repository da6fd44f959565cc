-- ===== src/Base/Outcome.antt =====
-- What a call comes to: a value, an error value, a panic, a wait that nothing ends, or no fuel left.
use mathlib.Core.Path.{◌≡◌, refl, ap, subst}
use mathlib.Core.Bool.{Bool, true, false}

pub data Outcome {ℓ} (A : Type ℓ) : Type ℓ where
  ok : A → Outcome A
  err panic blocked out_of_fuel : Outcome A

infixl 5 ◌>>=◌ ◌>>◌
abbrev pub ◌>>=◌ {ℓ κ} : {A : Type ℓ} {B : Type κ} → Outcome A → (A → Outcome B) → Outcome B
ok a >>= f = f a
err >>= f = err
panic >>= f = panic
blocked >>= f = blocked
out_of_fuel >>= f = out_of_fuel

abbrev pub ◌>>◌ {ℓ} : {B : Type ℓ} → Outcome (Unit {0}) → Outcome B → Outcome B
m >> k = m >>= λ _. k

-- `assert!`: a panic unless the test passes.
abbrev pub assert : Bool → Outcome (Unit {0})
assert true = ok tt
assert false = panic

-- A chain that succeeds has succeeded in its first step, and the rest has succeeded on its value.
module _ {ℓ κ} {A : Type ℓ} {B : Type κ} {result : B} where
  pub >>=-eq-ok :
      (first : Outcome A) (next : A → Outcome B)
      → first >>= next ≡ ok result
      → (value : A) × (first ≡ ok value) × (next value ≡ ok result)
  >>=-eq-ok blocked next e = cc
  >>=-eq-ok panic next e = cc
  >>=-eq-ok err next e = cc
  >>=-eq-ok out_of_fuel next e = cc
  >>=-eq-ok (ok value) next e = (value, refl, e)

-- What holds of one value holds of the other when they are the same success.
pub subst_ok {ℓ κ} : {A : Type ℓ} (P : A → Type κ) {x y : A} → ok x ≡ ok y → P x → P y
subst_ok {A} P {x} {y} e px = subst P (ap value e) px
  where
    value : Outcome A → A
    value (ok a) = a
    value _ = x
