-- ===== src/Prelude/Sort.antt =====
-- Sorting by a test: an insertion sort, which keeps the order of items that the test does not tell
-- apart, as `sort.SliceStable` does.
use mathlib.Core.Bool.{Bool, true, false, ◌&&◌, ◌||◌}
use mathlib.Core.List.{List, [], ◌∷◌}
use fabric_network_builder.Prelude.Tests.{ltb, ◌==◌, if◌then◌else◌}
use fabric_network_builder.Prelude.Text.{Bytes}

-- Go's `<=` on strings.
unfoldable pub bytes_leb : Bytes → Bytes → Bool
bytes_leb [] t = true
bytes_leb (c ∷ s) [] = false
bytes_leb (c ∷ s) (d ∷ t) = ltb c d || (c == d && bytes_leb s t)

module _ {ℓ} {A : Type ℓ} (le : A → A → Bool) where
  unfoldable pub insert_by : A → List A → List A
  insert_by x [] = x ∷ []
  insert_by x (y ∷ ys) = let rest = insert_by x ys in if le x y then x ∷ y ∷ ys else y ∷ rest

  unfoldable pub sort_by : List A → List A
  sort_by [] = []
  sort_by (x ∷ xs) = insert_by x (sort_by xs)

-- `sort.Strings`
abbrev pub sort_strings : List Bytes → List Bytes
sort_strings = sort_by bytes_leb
