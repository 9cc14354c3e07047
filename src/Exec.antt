-- ===== src/Exec.antt =====
-- Actions that change a state and may fail: the state behind a failure is kept, as in Go.
pub mod Laws
use fabric_network_builder.Prelude.{List, [], ◌∷◌, ◌++◌, Result, ok, err}

abbrev pub Exec {ℓ κ} : Type 0 → Type ℓ → Type κ → Type (ℓ ⊔ κ)
Exec E S A = S → Result E A × S

module _ {ℓ κ} {E : Type 0} {S : Type ℓ} {A : Type κ} where
  abbrev pub pure : A → Exec E S A
  pure a s = (ok a, s)

  abbrev pub raise : E → Exec E S A
  raise e s = (err e, s)

  -- What follows an action, by its result.
  abbrev pub handle {ν} :
      {B : Type ν} → Result E A × S → (A → Exec E S B) → (E → Exec E S B) → Result E B × S
  handle (ok a, s) f g = f a s
  handle (err e, s) f g = g e s

module _ {ℓ κ ν} {E : Type 0} {S : Type ℓ} {A : Type κ} {B : Type ν} where
  -- Both ways out of an action, with what follows each.
  abbrev pub either_way : Exec E S A → (A → Exec E S B) → (E → Exec E S B) → Exec E S B
  either_way m f g s = handle (m s) f g

  infixl 5 ◌>>=◌
  abbrev pub ◌>>=◌ : Exec E S A → (A → Exec E S B) → Exec E S B
  ◌>>=◌ m f s = handle (m s) f raise

module _ {ℓ κ} {E : Type 0} {S : Type ℓ} {B : Type κ} where
  infixl 5 ◌>>◌
  abbrev pub ◌>>◌ : Exec E S (Unit {0}) → Exec E S B → Exec E S B
  m >> k = m >>= λ u. k

module _ {ℓ κ} {E : Type 0} {S : Type ℓ} {A : Type κ} where
  -- `if err = f(); err == nil { return nil }`
  abbrev pub or_else : Exec E S A → (E → Exec E S A) → Exec E S A
  or_else m g s = handle (m s) pure g

-- A loop over a slice that stops at the first error.
module _ {ℓ κ} {E : Type 0} {S : Type ℓ} {X : Type κ} (f : X → Exec E S (Unit {0})) where
  unfoldable pub for_each : List X → Exec E S (Unit {0})
  for_each [] = pure tt
  for_each (x ∷ xs) = do f x; for_each xs

-- `defer`: a change of the state on each way out.
module _ {ℓ κ} {E : Type 0} {S : Type ℓ} {A : Type κ} where
  abbrev pub deferring : (S → S) → Exec E S A → Exec E S A
  deferring f m s = ((m s).0, f (m s).1)

-- A loop that appends what each round finds.
module _ {ℓ κ ν} {E : Type 0} {S : Type ℓ} {X : Type κ} {A : Type ν}
    (f : X → Exec E S (List A)) where
  unfoldable pub collect : List X → Exec E S (List A)
  collect [] = pure []
  collect (x ∷ xs) = do found ← f x; rest ← collect xs; pure (found ++ rest)
