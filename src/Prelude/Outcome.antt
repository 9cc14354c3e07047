-- ===== src/Prelude/Outcome.antt =====
-- The result of a function that returns a value or an error.
use mathlib.Core.Path.{◌≡◌, refl}

pub data Result {ℓ κ} (E : Type ℓ) (A : Type κ) : Type (ℓ ⊔ κ) where
  ok : A → Result E A
  err : E → Result E A

module _ {ℓ κ ν} {E : Type ℓ} {A : Type κ} {B : Type ν} where
  -- `if err != nil { return err }` behind a call, and then the rest.
  infixl 5 ◌>>=◌
  abbrev pub ◌>>=◌ : Result E A → (A → Result E B) → Result E B
  r >>= rest = elim r [ ok value ↦ rest value | err failure ↦ err failure ]

  pub >>=-eq-ok :
      (r : Result E A) (rest : A → Result E B) {final : B}
      → (r >>= rest) ≡ ok final
      → record { 0 : A; 1 : r ≡ ok «0»; 2 : rest «0» ≡ ok final }
  >>=-eq-ok (err failure) rest done = cc
  >>=-eq-ok (ok value) rest done = (value, refl, done)
