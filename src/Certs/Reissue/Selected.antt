-- ===== src/Certs/Reissue/Selected.antt =====
-- The leaves that are reissued.
use mathlib.Core.Path.{subst}
use mathlib.Core.List.{Memᴰ}
use mathlib.Core.List.Memᴰ.{head, tail}
use fabric_network_builder.Prelude.{
  List, [], ◌∷◌, ◌++◌, Bool, true, false, not, ◌&&◌, ◌||◌, ◌≡◌, ◌↔◌, ◌⊎◌, inl, inr, refl, ◌∙◌, ap,
  Bytes, codes, ℤ, ltb_ℤ, is_nil, bytes_eq, bytes_eq_iff, has_prefix, has_prefix-append, arith,
  Bool-cases,
}
use fabric_network_builder.Prelude.Sort.{sort_by}
use fabric_network_builder.Prelude.Members.{Mem-filter_by, Mem-sort_by}
use fabric_network_builder.Certs.Leaves.{Leaf}
use fabric_network_builder.Certs.Reissue.{
  ReissueOptions, node_matches, is_selecting, is_selected, is_target, has_expired, targets,
  leaf_leb,
}

-- A pattern names a node in full, or up to one of its dots.
abbrev pub Names : Bytes → Bytes → Type 0
Names p node = (node ≡ p) ⊎ record { 0 : Bytes; 1 : node ≡ (p ++ codes ".") ++ «0» }

abbrev pub IsNamed : Bytes → List Bytes → Type 0
IsNamed node patterns = record { 0 : Bytes; 1 : Memᴰ «0» patterns; 2 : Names «0» node }

has_prefix-rest : (s p : Bytes) → has_prefix s p ≡ true → record { 0 : Bytes; 1 : s ≡ p ++ «0» }
unfolding has_prefix
has_prefix-rest s [] e = (s, refl)
has_prefix-rest [] (d ∷ p) e = cc
has_prefix-rest (c ∷ s) (d ∷ p) e =
    let first : c ≡ d = ground (arith, e) in
    let rest : has_prefix s p ≡ true = ground (arith, e) in
    let (t, eq) = has_prefix-rest s p rest in (t, cc (first, eq))

matches-Names :
    (node p : Bytes) → ((bytes_eq node p || has_prefix node (p ++ codes ".")) ≡ true) ↔ Names p node
matches-Names node p = (
  λ e. elim (Bool-cases (bytes_eq node p)) [
    | inl same ↦ inl ((bytes_eq_iff node p).0 same)
    | inr other ↦ inr (has_prefix-rest node (p ++ codes ".") (ground (arith, e, other)))
  ],
  λ n. elim n [
    | inl same ↦ ground (arith, (bytes_eq_iff node p).1 same)
    | inr (t, eq) ↦
        ground
          (arith, ap (λ x. has_prefix x (p ++ codes ".")) eq ∙ has_prefix-append (p ++ codes ".") t)
  ],
)

matches_first :
    (node p q : Bytes) (patterns : List Bytes)
    → q ≡ p
    → Names q node
    → (bytes_eq node p || has_prefix node (p ++ codes ".") || node_matches node patterns) ≡ true
matches_first node p q patterns e n =
    ground (arith, (matches-Names node p).1 (subst (λ x. Names x node) e n))

pub node_matches_iff :
    (node : Bytes) (patterns : List Bytes)
    → (node_matches node patterns ≡ true) ↔ IsNamed node patterns
unfolding node_matches
node_matches_iff node [] = (λ e. cc e, λ n. elim n.1 [ ])
node_matches_iff node (p ∷ patterns) = (
  λ e. elim (Bool-cases (bytes_eq node p || has_prefix node (p ++ codes "."))) [
    | inl same ↦ (p, head refl, (matches-Names node p).0 same)
    | inr other ↦
        let (q, m, n) = (node_matches_iff node patterns).0 (ground (arith, e, other)) in
        (q, tail m, n)
  ],
  λ n. elim n.1 [
    | head e ↦ matches_first node p n.0 patterns e n.2
    | tail m ↦ ground (arith, (node_matches_iff node patterns).1 (n.0, m, n.2))
  ],
)

wanted_iff :
    (all expired_only expired no_names named : Bool)
    → (((all || expired_only || not no_names)
          && ((no_names || named) && (not expired_only || expired)))
        ≡ true)
      ↔ (((all ≡ true) ⊎ ((expired_only ≡ true) ⊎ (no_names ≡ false)))
          × ((no_names ≡ false → named ≡ true) × (expired_only ≡ true → expired ≡ true)))
wanted_iff all expired_only expired no_names named = (λ e. ground arith, λ w. ground arith)

not-true : (b : Bool) → (not b ≡ true) ↔ (b ≡ false)
not-true b = (λ e. ground arith, λ e. ground arith)

module _ {PublicKey Extension : Type 0} (o : ReissueOptions) (now : ℤ) where
  -- The options select leaves, the leaf has a name of the options if there are any, and it has
  -- expired if only such leaves are selected.
  abbrev pub IsWanted : Leaf PublicKey Extension → Type 0
  IsWanted l =
      ((o.all ≡ true) ⊎ ((o.all_expired ≡ true) ⊎ (is_nil o.nodes ≡ false)))
      × ((is_nil o.nodes ≡ false → IsNamed l.node o.nodes)
          × (o.all_expired ≡ true → ltb_ℤ now l.expiry ≡ false))

  is_target_iff : (l : Leaf PublicKey Extension) → (is_target o now l ≡ true) ↔ IsWanted l
  unfolding is_target is_selecting is_selected has_expired
  is_target_iff l =
      let parts =
        wanted_iff o.all o.all_expired (not (ltb_ℤ now l.expiry)) (is_nil o.nodes)
          (node_matches l.node o.nodes) in
      let named = node_matches_iff l.node o.nodes in
      let expired = not-true (ltb_ℤ now l.expiry) in
      (
        λ e.
            let (some_way, (names, old)) = parts.0 e in
            (some_way, (λ h. named.0 (names h), λ h. expired.0 (old h))),
        λ w. parts.1 (w.0, (λ h. named.1 (w.1.0 h), λ h. expired.1 (w.1.1 h))),
      )

  -- The leaves that Reissue renews are those of the found leaves that the options ask for: the
  -- options select leaves, the leaf has a name of the options, in full or up to one of its dots, if
  -- there are any, and it has expired if only such leaves are selected.
  pub targets_iff :
      (leaves : List (Leaf PublicKey Extension)) (l : Leaf PublicKey Extension)
      → Memᴰ l (targets o now (sort_by leaf_leb leaves)) ↔ (Memᴰ l leaves × IsWanted l)
  unfolding targets
  targets_iff leaves l =
      let kept = Mem-filter_by (is_target o now) l (sort_by leaf_leb leaves) in
      let sorted = Mem-sort_by leaf_leb l leaves in
      let wanted = is_target_iff l in
      (
        λ m. let (found, passes) = kept.0 m in (sorted.0 found, wanted.0 passes),
        λ m. kept.1 (sorted.1 m.0, wanted.1 m.1),
      )
