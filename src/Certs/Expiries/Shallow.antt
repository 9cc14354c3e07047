-- ===== src/Certs/Expiries/Shallow.antt =====
-- Of identical files, the ones with the least depth are listed.
use mathlib.Core.Path.{subst}
use mathlib.Core.List.{Memᴰ}
use fabric_network_builder.Prelude.Members.{filter_by, Mem-filter_by, All-Mem}
use fabric_network_builder.Prelude.{
  ℕ, ◌≤◌, List, [], ◌∷◌, true, ltb, if◌then◌else◌, ◌≡◌, ◌↔◌, refl, sym, Option, some, Bytes, All,
  arith, ==_iff,
}
use fabric_network_builder.Certs.Expiries.{lesser, least_depth, is_at, paths_at, shallowest}

module _ (depth : Bytes → ℕ) where
  -- The loop gives the greatest number that is neither above the first one nor above a path's depth.
  IsMinimum : ℕ → List Bytes → Type 0
  IsMinimum m paths = record {
    0 : ℕ;
    1 : least_depth depth (some m) paths ≡ some «0»;
    2 : «0» ≤ m;
    3 : All (λ q. «0» ≤ depth q) paths;
    4 : (d : ℕ) → d ≤ m → All (λ q. d ≤ depth q) paths → d ≤ «0»;
  }

  least_depth-IsMinimum : (m : ℕ) (paths : List Bytes) → IsMinimum m paths
  unfolding IsMinimum least_depth lesser
  least_depth-IsMinimum m [] = (m, refl, omega arith, tt, λ d h all. h)
  least_depth-IsMinimum m (p ∷ paths) =
      let (n, e, low, all, greatest) =
        least_depth-IsMinimum (if ltb (depth p) m then depth p else m) paths in
      (
        n,
        e,
        ground (arith, low),
        (ground (arith, low), all),
        λ d h bounds. greatest d (ground (arith, h, bounds.0)) bounds.1,
      )

  at_least : (n : ℕ) (p : Bytes) → (is_at depth (some n) p ≡ true) ↔ (depth p ≡ n)
  at_least n p = ==_iff (depth p) n

  shallowest_from :
      (p₀ p : Bytes) (paths : List Bytes)
      → IsMinimum (depth p₀) paths
      → Memᴰ p (paths_at depth (least_depth depth (some (depth p₀)) paths) (p₀ ∷ paths))
        ↔ (Memᴰ p (p₀ ∷ paths) × All (λ q. depth p ≤ depth q) (p₀ ∷ paths))
  unfolding IsMinimum
  shallowest_from p₀ p paths (n, e, low, all, greatest) =
      subst
        (λ (least : Option ℕ).
          Memᴰ p (paths_at depth least (p₀ ∷ paths))
          ↔ (Memᴰ p (p₀ ∷ paths) × All (λ q. depth p ≤ depth q) (p₀ ∷ paths)))
        (sym e)
        (
          λ m.
              let kept = (Mem-filter_by (is_at depth (some n)) p (p₀ ∷ paths)).0 m in
              let same : n ≡ depth p = sym ((at_least n p).0 kept.1) in
              (kept.0, subst (λ (d : ℕ). All (λ q. d ≤ depth q) (p₀ ∷ paths)) same (low, all)),
          λ m.
              let above : n ≤ depth p = All-Mem (λ q. n ≤ depth q) (p₀ ∷ paths) (low, all) m.0 in
              let below : depth p ≤ n = greatest (depth p) m.1.0 m.1.1 in
              (Mem-filter_by (is_at depth (some n)) p (p₀ ∷ paths)).1
                (m.0, (at_least n p).1 (omega arith)),
        )

  -- Of the paths of identical files, those are listed that have no more components than any other.
  pub shallowest_iff :
      (paths : List Bytes) (p : Bytes)
      → Memᴰ p (shallowest depth paths) ↔ (Memᴰ p paths × All (λ q. depth p ≤ depth q) paths)
  unfolding shallowest least_depth lesser filter_by
  shallowest_iff [] p = (λ m. elim m [ ], λ m. elim m.0 [ ])
  shallowest_iff (q ∷ paths) p = shallowest_from q p paths (least_depth-IsMinimum (depth q) paths)
