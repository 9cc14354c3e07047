-- ===== src/Prelude/Dict.antt =====
-- Go maps with string keys, as association lists with one entry for each key.
use mathlib.Core.Path.{◌≡◌, refl}
use mathlib.Core.List.{List, [], ◌∷◌}
use mathlib.Core.Option.{Option, none, some}
use native.Mathlib.Omega.{arith}
use fabric_network_builder.Prelude.Tests.{if◌then◌else◌}
use fabric_network_builder.Prelude.Text.{Bytes, bytes_eq, bytes_eq_iff}

abbrev pub Dict {ℓ} : Type ℓ → Type ℓ
Dict V = List (Bytes × V)

module _ {ℓ} {V : Type ℓ} where
  -- `v, ok := m[k]`
  unfoldable pub lookup : Bytes → Dict V → Option V
  lookup k [] = none
  lookup k ((j, v) ∷ d) = if bytes_eq k j then some v else lookup k d

  -- `m[k] = v`
  unfoldable pub insert : Bytes → V → Dict V → Dict V
  insert k v [] = (k, v) ∷ []
  insert k v ((j, w) ∷ d) = if bytes_eq k j then (k, v) ∷ d else (j, w) ∷ insert k v d

  -- `m[k]` with a default for a missing key.
  unfoldable pub get_or : Bytes → Dict V → V → V
  get_or k [] v = v
  get_or k ((j, w) ∷ d) v = if bytes_eq k j then w else get_or k d v

  pub lookup-insert :
      (j k : Bytes) (v : V) (d : Dict V)
      → lookup j (insert k v d) ≡ (if bytes_eq j k then some v else lookup j d)
  unfolding lookup insert
  lookup-insert j k v [] = refl
  lookup-insert j k v ((i, w) ∷ d) =
      ground (arith, bytes_eq_iff j k, bytes_eq_iff k i, bytes_eq_iff j i, lookup-insert j k v d)
