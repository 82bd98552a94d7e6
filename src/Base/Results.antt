-- ===== src/Base/Results.antt =====
-- A computation that may raise: the exception is a value.
use mathlib.Core.Path.{◌≡◌, refl}
use mathlib.Core.Bool.{Bool, true, false}
use mathlib.Core.Logic.{◌⊎◌, inl, inr}

-- An error of type `E`, or a value of type `A`.
pub data Result {ℓ κ} (E : Type ℓ) (A : Type κ) : Type (ℓ ⊔ κ) where
  err : E → Result E A
  ok : A → Result E A

-- The statements after one that may raise.
infixl 5 ◌>>=◌ ◌>>◌
abbrev pub ◌>>=◌ {ε ℓ κ} :
    {E : Type ε} {A : Type ℓ} {B : Type κ} → Result E A → (A → Result E B) → Result E B
err raised >>= rest = err raised
ok value >>= rest = rest value

abbrev pub ◌>>◌ {ε κ} : {E : Type ε} {B : Type κ} → Result E (Unit {0}) → Result E B → Result E B
check >> rest = check >>= λ passed. rest

-- `if not condition: raise error`
abbrev pub require : {E : Type 0} → Bool → E → Result E (Unit {0})
require true e = ok tt
require false e = err e

-- `except X as failure: raise Y from failure`
abbrev pub translate : {E F A : Type 0} → (E → F) → Result E A → Result F A
translate f (ok a) = ok a
translate f (err e) = err (f e)

module _ {ε ℓ κ} {E : Type ε} {A : Type ℓ} {B : Type κ} where
  -- What returned in the end returned at each step.
  pub >>=-eq-ok :
      (first : Result E A) (rest : A → Result E B) {out : B}
      → first >>= rest ≡ ok out
      → (value : A) × (first ≡ ok value) × (rest value ≡ ok out)
  >>=-eq-ok (ok value) rest returned = (value, refl, returned)
  >>=-eq-ok (err raised) rest returned = cc

pub Result-cases :
    {E A : Type 0} (r : Result E A) → ((a : A) × (r ≡ ok a)) ⊎ ((e : E) × (r ≡ err e))
Result-cases (ok a) = inl (a, refl)
Result-cases (err e) = inr (e, refl)

pub translate-ok :
    {E F A : Type 0} (f : E → F) (r : Result E A) {a : A} → translate f r ≡ ok a → r ≡ ok a
translate-ok f (ok a) h = cc
translate-ok f (err e) h = cc

pub require-ok : {E : Type 0} (b : Bool) (e : E) {u : Unit {0}} → require b e ≡ ok u → b ≡ true
require-ok true e h = refl
require-ok false e h = cc
