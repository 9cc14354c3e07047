-- ===== src/Prelude/Members.antt =====
-- The items of a list, of a part of it and of the sorted list.
use mathlib.Core.Path.{subst}
use mathlib.Core.Bool.{Bool, true, false}
use mathlib.Core.Path.{◌≡◌, refl, sym, ap, ◌∙◌}
use mathlib.Core.Logic.{◌↔◌}
use mathlib.Core.List.{List, [], ◌∷◌, Memᴰ}
use mathlib.Core.List.Memᴰ.{head, tail}
use fabric_network_builder.Prelude.Tests.{if◌then◌else◌}
use fabric_network_builder.Prelude.Lists.{All}
use fabric_network_builder.Prelude.Sort.{insert_by, sort_by}

module _ {ℓ} {A : Type ℓ} where
  -- The loop that keeps what passes a test.
  module _ (f : A → Bool) where
    unfoldable pub filter_by : List A → List A
    filter_by [] = []
    filter_by (x ∷ xs) = let rest = filter_by xs in if f x then x ∷ rest else rest

  pub All-Mem {κ} : (P : A → Type κ) {x : A} (xs : List A) → All P xs → Memᴰ x xs → P x
  All-Mem P [] h m = elim m [ ]
  All-Mem P (y ∷ xs) (p, h) (head e) = subst P (sym e) p
  All-Mem P (y ∷ xs) (p, h) (tail m) = All-Mem P xs h m

  pub All-Mem_intro {κ} : (P : A → Type κ) (xs : List A) → ((x : A) → Memᴰ x xs → P x) → All P xs
  All-Mem_intro P [] h = tt
  All-Mem_intro P (x ∷ xs) h = (h x (head refl), All-Mem_intro P xs (λ y m. h y (tail m)))

  if_cons :
      (b : Bool) (f : A → Bool) (x y : A) (rest xs : List A)
      → f y ≡ b
      → (Memᴰ x rest → Memᴰ x xs × (f x ≡ true))
      → Memᴰ x (if b then y ∷ rest else rest)
      → Memᴰ x (y ∷ xs) × (f x ≡ true)
  if_cons false f x y rest xs e h m = (tail (h m).0, (h m).1)
  if_cons true f x y rest xs e h (head e') = (head e', ap f e' ∙ e)
  if_cons true f x y rest xs e h (tail m) = (tail (h m).0, (h m).1)

  cons_if :
      (b : Bool) (f : A → Bool) (x y : A) (rest xs : List A)
      → f y ≡ b
      → (Memᴰ x xs → Memᴰ x rest)
      → f x ≡ true
      → Memᴰ x (y ∷ xs)
      → Memᴰ x (if b then y ∷ rest else rest)
  cons_if true f x y rest xs e h passes (head e') = head e'
  cons_if true f x y rest xs e h passes (tail m) = tail (h m)
  cons_if false f x y rest xs e h passes (head e') = cc (e, passes, ap f e')
  cons_if false f x y rest xs e h passes (tail m) = h m

  pub Mem-filter_by :
      (f : A → Bool) (x : A) (xs : List A) → Memᴰ x (filter_by f xs) ↔ (Memᴰ x xs × (f x ≡ true))
  unfolding filter_by
  Mem-filter_by f x [] = (λ m. elim m [ ], λ m. elim m.0 [ ])
  Mem-filter_by f x (y ∷ xs) = (
    λ m. if_cons (f y) f x y (filter_by f xs) xs refl (Mem-filter_by f x xs).0 m,
    λ m.
        cons_if (f y) f x y (filter_by f xs) xs refl (λ m'. (Mem-filter_by f x xs).1 (m', m.1)) m.1
          m.0,
  )

  from_inserted :
      (b : Bool) (x y z : A) (rest ys : List A)
      → (Memᴰ z rest → Memᴰ z (x ∷ ys))
      → Memᴰ z (if b then x ∷ y ∷ ys else y ∷ rest)
      → Memᴰ z (x ∷ y ∷ ys)
  from_inserted true x y z rest ys h m = m
  from_inserted false x y z rest ys h (head e) = tail (head e)
  from_inserted false x y z rest ys h (tail m) = elim (h m) [
    | head e ↦ head e
    | tail m' ↦ tail (tail m')
  ]

  to_inserted :
      (b : Bool) (x y z : A) (rest ys : List A)
      → (Memᴰ z (x ∷ ys) → Memᴰ z rest)
      → Memᴰ z (x ∷ y ∷ ys)
      → Memᴰ z (if b then x ∷ y ∷ ys else y ∷ rest)
  to_inserted true x y z rest ys h m = m
  to_inserted false x y z rest ys h (head e) = tail (h (head e))
  to_inserted false x y z rest ys h (tail (head e)) = head e
  to_inserted false x y z rest ys h (tail (tail m)) = tail (h (tail m))

  Mem-insert_by :
      (le : A → A → Bool) (x z : A) (ys : List A) → Memᴰ z (insert_by le x ys) ↔ Memᴰ z (x ∷ ys)
  unfolding insert_by
  Mem-insert_by le x z [] = (λ m. m, λ m. m)
  Mem-insert_by le x z (y ∷ ys) = (
    from_inserted (le x y) x y z (insert_by le x ys) ys (Mem-insert_by le x z ys).0,
    to_inserted (le x y) x y z (insert_by le x ys) ys (Mem-insert_by le x z ys).1,
  )

  cons_mono :
      (x z : A) (xs ys : List A) → (Memᴰ z xs → Memᴰ z ys) → Memᴰ z (x ∷ xs) → Memᴰ z (x ∷ ys)
  cons_mono x z xs ys h (head e) = head e
  cons_mono x z xs ys h (tail m) = tail (h m)

  pub Mem-sort_by : (le : A → A → Bool) (z : A) (xs : List A) → Memᴰ z (sort_by le xs) ↔ Memᴰ z xs
  unfolding sort_by
  Mem-sort_by le z [] = (λ m. m, λ m. m)
  Mem-sort_by le z (x ∷ xs) =
      let inserted = Mem-insert_by le x z (sort_by le xs) in
      let sorted = Mem-sort_by le z xs in
      (
        λ m. cons_mono x z (sort_by le xs) xs sorted.0 (inserted.0 m),
        λ m. inserted.1 (cons_mono x z xs (sort_by le xs) sorted.1 m),
      )
