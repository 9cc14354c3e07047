-- ===== src/Prelude/Defaults.antt =====
-- An option's value, of which one stands for the option's default.
use mathlib.Core.Path.{◌≡◌, refl}
use mathlib.Core.Logic.{◌≢◌, ◌↔◌, ◌⊎◌, inl, inr}
use mathlib.Core.Bool.{Bool, true, false}
use fabric_network_builder.Prelude.Tests.{if◌then◌else◌}

module _ {ℓ} {A : Type ℓ} where
  -- `actual` is the value that is asked for, or the default where that value is `unset`.
  abbrev pub IsOrDefault : A → A → A → A → Type ℓ
  IsOrDefault unset default asked actual =
      ((asked ≢ unset) × (actual ≡ asked)) ⊎ ((asked ≡ unset) × (actual ≡ default))

  pub if-IsOrDefault :
      (unset default asked : A) (b : Bool)
      → (b ≡ true) ↔ (asked ≡ unset)
      → IsOrDefault unset default asked (if b then default else asked)
  if-IsOrDefault unset default asked true test = inr (test.0 refl, refl)
  if-IsOrDefault unset default asked false test = inl ((λ e. cc (test.1 e)), refl)
