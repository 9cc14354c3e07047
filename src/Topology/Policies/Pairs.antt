-- ===== src/Topology/Policies/Pairs.antt =====
-- The loops over the pairs of orgs: how many rounds they make, and for which pairs.
use mathlib.Core.Path.{subst}
use fabric_network_builder.Prelude.{
  ℕ, zero, suc, ◌+◌, ◌*◌, ◌-◌, ◌≤◌, ◌<◌, ◌≡◌, ◌↔◌, refl, ap, ◌∙◌, sym, List, [], ◌∷◌, map, arith,
  length, length-append, length-map, All, All-append,
}
use mathlib.Core.List.{flat_map, Memᴰ}
use mathlib.Core.List.Memᴰ.{head, tail}
use mathlib.Core.List.Memᴰ
use fabric_network_builder.Prelude.Members.{All-Mem}
use fabric_network_builder.Topology.Policies.{range', up_to, pairs}

-- Two of the orgs from `from` to `to`, the one with the lower number first.
pub record PairOf (from to : ℕ) : Type 0 where
  pub low : ℕ
  pub high : ℕ
  pub above : from ≤ low
  pub apart : low < high
  pub below : high ≤ to

length-range' : (a rounds : ℕ) → length (range' a rounds) ≡ rounds
unfolding range'
length-range' a zero = refl
length-range' a (suc rounds) = ap suc (length-range' (suc a) rounds)

next_triangle : (m r : ℕ) → 2 * r ≡ m * (m - 1) → 2 * (m + r) ≡ suc m * (suc m - 1)
next_triangle zero r e = omega arith
next_triangle (suc m) r e =
    let down : suc m - 1 ≡ m = omega arith in
    let up : suc (suc m) - 1 ≡ suc m = omega arith in
    let e' : 2 * r ≡ (m + 1) * m = e ∙ ap (λ (k : ℕ). suc m * k) down ∙ omega arith in
    let goal : 2 * (m + 1 + r) ≡ (m + 2) * (m + 1) = omega arith in
    let goal' : 2 * (suc m + r) ≡ suc (suc m) * suc m = omega (arith, goal) in
    goal' ∙ ap (λ (k : ℕ). suc (suc m) * k) (sym up)

-- The pairs of the numbers a, a + 1, ..., a + m - 1, as the loops run through them: i below, j above.
length-flat_pairs {ℓ} :
    {A : Type ℓ} (f : ℕ → ℕ → A) (a m to : ℕ)
    → a + m ≡ suc to
    → 2 * length (flat_map (λ i. map (f i) (up_to (suc i) to)) (range' a m)) ≡ m * (m - 1)
unfolding flat_map range'
length-flat_pairs f a zero to e = omega arith
length-flat_pairs f a (suc m) to e =
    let ih = length-flat_pairs f (suc a) m to (omega arith) in
    let first : length (map (f a) (up_to (suc a) to)) ≡ m =
      length-map (f a) (up_to (suc a) to) ∙ length-range' (suc a) (suc to - suc a) ∙ omega arith in
    let more = flat_map (λ i. map (f i) (up_to (suc i) to)) (range' (suc a) m) in
    ap (λ (k : ℕ). 2 * k) (length-append (map (f a) (up_to (suc a) to)) more)
    ∙ ap (λ (k : ℕ). 2 * (k + length more)) first
    ∙ next_triangle m (length more) ih

pub length-pairs {ℓ} :
    {A : Type ℓ} (f : ℕ → ℕ → A) (a to : ℕ)
    → a ≤ suc to
    → 2 * length (pairs f a to) ≡ (suc to - a) * (suc to - a - 1)
unfolding pairs
length-pairs f a to h = length-flat_pairs f a (suc to - a) to (omega arith)

Mem-range' : (a rounds k : ℕ) → k < rounds → Memᴰ (a + k) (range' a rounds)
unfolding range'
Mem-range' a zero k h = elim h [ ]
Mem-range' a (suc rounds) zero h = let e : a + 0 ≡ a = omega arith in head e
Mem-range' a (suc rounds) (suc k) h =
    let e : a + suc k ≡ suc a + k = omega arith in
    tail (Memᴰ.cast e (Mem-range' (suc a) rounds k (omega arith)))

Mem-up_to : (from to i : ℕ) → from ≤ i → i ≤ to → Memᴰ i (up_to from to)
Mem-up_to from to i h h' =
    let e : i ≡ from + (i - from) = omega arith in
    Memᴰ.cast e (Mem-range' from (suc to - from) (i - from) (omega arith))

All-range' {κ} :
    (P : ℕ → Type κ) (a rounds : ℕ)
    → ((i : ℕ) → a ≤ i → i < a + rounds → P i)
    → All P (range' a rounds)
unfolding range'
All-range' P a zero h = tt
All-range' P a (suc rounds) h = (
  h a (omega arith) (omega arith),
  All-range' P (suc a) rounds (λ i low high. h i (omega arith) (omega arith)),
)

-- The numbers of a loop are those from its first to its last.
pub up_to-Mem_iff : (from to i : ℕ) → Memᴰ i (up_to from to) ↔ ((from ≤ i) × (i ≤ to))
up_to-Mem_iff from to i = (
  All-Mem (λ i. (from ≤ i) × (i ≤ to)) (up_to from to)
      (All-range' (λ i. (from ≤ i) × (i ≤ to)) from (suc to - from)
        (λ i low high. (low, omega arith))),
  λ h. Mem-up_to from to i h.0 h.1,
)

pub length-up_to : (from to : ℕ) → length (up_to from to) ≡ suc to - from
length-up_to from to = length-range' from (suc to - from)

module _ {ℓ κ} {A : Type ℓ} {B : Type κ} where
  Mem-flat_map :
      (g : A → List B) {x : A} {y : B} (xs : List A)
      → Memᴰ x xs
      → Memᴰ y (g x)
      → Memᴰ y (flat_map g xs)
  unfolding flat_map
  Mem-flat_map g [] m m' = elim m [ ]
  Mem-flat_map g {y = y} (x' ∷ xs) (head e) m' =
      Memᴰ.append_left (flat_map g xs) (subst (λ z. Memᴰ y (g z)) e m')
  Mem-flat_map g (x' ∷ xs) (tail m) m' = Memᴰ.append_right (g x') (Mem-flat_map g xs m m')

  All-map {ν} :
      (P : B → Type ν) (f : A → B) (xs : List A) → All (λ x. P (f x)) xs → All P (map f xs)
  All-map P f [] h = tt
  All-map P f (x ∷ xs) (h, hs) = (h, All-map P f xs hs)

  All-flat_map {ν} :
      (P : B → Type ν) (g : A → List B) (xs : List A)
      → All (λ x. All P (g x)) xs
      → All P (flat_map g xs)
  unfolding flat_map
  All-flat_map P g [] h = tt
  All-flat_map P g (x ∷ xs) (h, hs) = All-append P (g x) (flat_map g xs) h (All-flat_map P g xs hs)

module _ {ℓ} {A : Type ℓ} (f : ℕ → ℕ → A) (from to : ℕ) where
  -- The loops have a round for each pair, and no others.
  pub Mem-pairs : (q : PairOf from to) → Memᴰ (f q.low q.high) (pairs f from to)
  unfolding pairs
  Mem-pairs q =
      Mem-flat_map (λ i. map (f i) (up_to (suc i) to)) (up_to from to)
        (Mem-up_to from to q.low q.above (omega (arith, q.apart, q.below)))
        (Memᴰ.map (f q.low) (Mem-up_to (suc q.low) to q.high (omega (arith, q.apart)) q.below))

  pub All-pairs {κ} :
      (P : A → Type κ) → ((q : PairOf from to) → P (f q.low q.high)) → All P (pairs f from to)
  unfolding pairs
  All-pairs P h =
      All-flat_map P (λ i. map (f i) (up_to (suc i) to)) (up_to from to)
        (All-range' (λ i. All P (map (f i) (up_to (suc i) to))) from (suc to - from)
          (λ i above i_in. All-map P (f i) (up_to (suc i) to) (
            All-range' (λ j. P (f i j)) (suc i) (suc to - suc i)
              (λ j apart j_in. h (record {
                low = i;
                high = j;
                above = above;
                apart = omega arith;
                below = omega arith;
              })))))
