-- ===== src/Topology/Policies/Collections.antt =====
-- The collections of each private structure, and the counts of peers in them.
use mathlib.Core.Path.{subst}
use fabric_network_builder.Prelude.{
  ℕ, suc, ◌*◌, ◌/◌, ◌-◌, ◌^◌, ◌≤◌, ◌<◌, ◌≡◌, ◌↔◌, ◌⊎◌, inl, inr, refl, ap, ◌∙◌, sym, false, List,
  [], ◌∷◌, ◌++◌, map, append_assoc, arith, length, All, Bool-cases, Bytes, codes, bytes_eq,
  bytes_eq_refl, has_prefix, split, join, pos, negsuc, eqb_ℤ, eqb_ℤ_iff, half, wrap, wrap-pos, ◌-ℤ◌,
  ◌*ℤ◌, ok,
}
use mathlib.Core.List.{Memᴰ}
use fabric_network_builder.Prelude.Decimal.{print_ℕ, itoa}
use fabric_network_builder.Prelude.Defaults.{IsOrDefault, if-IsOrDefault}
use fabric_network_builder.Topology.Options.{Options}
use fabric_network_builder.Topology.Policies.{
  Collection, up_to, member, members, pairs, orgs_of, total_peers, required_peers, max_peers,
  collection, vanity_collection, pair_collection, common_policies, pair_policies, shared_policies,
  Policies, compute_policies, tail,
}
use fabric_network_builder.Topology.Policies.Pairs.{
  PairOf, up_to-Mem_iff, length-up_to, length-pairs, Mem-pairs, All-pairs,
}

-- What every collection of a network with `total` peers says of its peers.
abbrev pub HasCounts : Options → ℕ → Collection → Type 0
HasCounts n total c =
    IsOrDefault (negsuc 0) (pos (total / 2)) n.req_peer_count c.required_peer_count
    × IsOrDefault (negsuc 0) (pos (total - 1)) n.max_peer_count c.max_peer_count
    × (c.block_to_live ≡ pos 0)
    × (c.member_only_read ≡ false)
    × (c.member_only_write ≡ false)

times-pos : (a b : ℕ) → pos a *ℤ pos b ≡ pos (a * b)
unfolding ◌*ℤ◌
times-pos a b = ground arith

before-pos : (a : ℕ) → 1 ≤ a → a < 2 ^ 63 → wrap (pos a -ℤ pos 1) ≡ pos (a - 1)
unfolding ◌-ℤ◌
before-pos a h h' =
    let e : pos a -ℤ pos 1 ≡ pos (a - 1) = ground arith in
    ap wrap e ∙ wrap-pos (a - 1) (omega arith)

pub total_peers-pos :
    (n : Options) (o q : ℕ)
    → n.org_count ≡ pos o
    → n.peer_count ≡ pos q
    → o * q < 2 ^ 63
    → total_peers n ≡ pos (o * q)
unfolding total_peers
total_peers-pos n o q eo eq fits =
    ap (λ z. wrap (z *ℤ n.peer_count)) eo
    ∙ ap (λ z. wrap (pos o *ℤ z)) eq
    ∙ ap wrap (times-pos o q)
    ∙ wrap-pos (o * q) fits

module _ (n : Options) (total : ℕ) (peers : total_peers n ≡ pos total) (some_peers : 1 ≤ total)
    (fits : total < 2 ^ 63) where
  required_peers-IsOrDefault :
      IsOrDefault (negsuc 0) (pos (total / 2)) n.req_peer_count (required_peers n)
  unfolding required_peers half
  required_peers-IsOrDefault =
      subst (λ d. IsOrDefault (negsuc 0) d n.req_peer_count (required_peers n)) (ap half peers)
        (if-IsOrDefault (negsuc 0) (half (total_peers n)) n.req_peer_count
          (eqb_ℤ n.req_peer_count (negsuc 0)) (eqb_ℤ_iff n.req_peer_count (negsuc 0)))

  max_peers-IsOrDefault : IsOrDefault (negsuc 0) (pos (total - 1)) n.max_peer_count (max_peers n)
  unfolding max_peers
  max_peers-IsOrDefault =
      subst (λ d. IsOrDefault (negsuc 0) d n.max_peer_count (max_peers n))
        (ap (λ z. wrap (z -ℤ pos 1)) peers ∙ before-pos total some_peers fits)
        (if-IsOrDefault (negsuc 0) (wrap (total_peers n -ℤ pos 1)) n.max_peer_count
          (eqb_ℤ n.max_peer_count (negsuc 0)) (eqb_ℤ_iff n.max_peer_count (negsuc 0)))

  collection-HasCounts : (name policy : Bytes) → HasCounts n total (collection n name policy)
  unfolding collection
  collection-HasCounts name policy =
      (required_peers-IsOrDefault, max_peers-IsOrDefault, refl, refl, refl)

module _ (n : Options) (p : Policies) where
  -- What `computePolicies` returned, by its three branches.
  policies_cases :
      compute_policies n ≡ ok p
      → (common_policies n (tail (split n.private_structure b',')) ≡ ok p)
        ⊎ ((p ≡ pair_policies n) ⊎ (p ≡ shared_policies n))
  unfolding compute_policies
  policies_cases e = elim (Bool-cases (has_prefix n.private_structure (codes "nchoose2common,"))) [
    | inl common ↦ inl (ground arith)
    | inr other ↦ elim (Bool-cases (bytes_eq n.private_structure (codes "nchoose2"))) [
      | inl pair ↦ inr (inl (ground arith))
      | inr shared ↦ inr (inr (ground arith))
    ]
  ]

  common_collections :
      (vanity : List Bytes)
      → common_policies n vanity ≡ ok p
      → p.collections ≡ pairs (vanity_collection n vanity) 2 (orgs_of n)
  unfolding common_policies
  common_collections vanity e = ground arith

  -- Every collection is made by `collection`.
  policies-All :
      (P : Collection → Type 0)
      → ((name policy : Bytes) → P (collection n name policy))
      → compute_policies n ≡ ok p
      → All P p.collections
  unfolding vanity_collection pair_policies shared_policies pair_collection
  policies-All P h e = elim (policies_cases e) [
    | inl common ↦
        subst (All P) (sym (common_collections _ common))
          (All-pairs (vanity_collection n _) 2 (orgs_of n) P (λ q. h _ _))
    | inr (inl pair) ↦
        subst (λ r. All P r.collections) (sym pair)
          (All-pairs (pair_collection n) 1 (orgs_of n) P (λ q. h _ _))
    | inr (inr shared) ↦ subst (λ r. All P r.collections) (sym shared) (h _ _, tt)
  ]

-- Whatever the private structure, every collection has the required peer count of the options, or
-- half of all peers, rounded down, where that is -1, the maximum peer count of the options, or one
-- less than all peers where that is -1, no block to live and no member-only flag, in a network with
-- at least one peer and less than 2^63.
pub compute_policies-HasCounts :
    (n : Options) (p : Policies) (o q : ℕ)
    → n.org_count ≡ pos o
    → n.peer_count ≡ pos q
    → 1 ≤ o * q
    → o * q < 2 ^ 63
    → compute_policies n ≡ ok p
    → All (HasCounts n (o * q)) p.collections
compute_policies-HasCounts n p o q eo eq some_peers fits e =
    policies-All n p (HasCounts n (o * q))
      (collection-HasCounts n (o * q) (total_peers-pos n o q eo eq fits) some_peers fits) e

-- A member of org i, in the language of the policies.
abbrev pub org_member : ℕ → Bytes
org_member i = codes "'Org" ++ (print_ℕ i ++ codes "MSP.member'")

-- A text that lists a member of each of the orgs `from` to `to`, each once.
pub record IsMembers (from to : ℕ) (s : Bytes) : Type 0 where
  pub orgs : List ℕ
  pub complete : (i : ℕ) → Memᴰ i orgs ↔ ((from ≤ i) × (i ≤ to))
  pub once : length orgs ≡ suc to - from
  pub text : s ≡ join (map org_member orgs) (codes ", ")

pub members-IsMembers : (n : Options) (from : ℕ) → IsMembers from (orgs_of n) (members n from)
unfolding members member itoa
members-IsMembers n from = record {
  orgs = up_to from (orgs_of n);
  complete = up_to-Mem_iff from (orgs_of n);
  once = length-up_to from (orgs_of n);
  text = refl;
}

-- The collection of orgs i and j: its name, and the policy that a member of either satisfies.
abbrev pub IsForPair : ℕ → ℕ → Collection → Type 0
IsForPair i j c =
    (c.name ≡ codes "org" ++ (print_ℕ i ++ (codes "org" ++ print_ℕ j)))
    × (c.policy
        ≡ codes "OR(" ++ (join (org_member i ∷ org_member j ∷ []) (codes ", ") ++ codes ")"))

pair_collection-IsForPair : (n : Options) (i j : ℕ) → IsForPair i j (pair_collection n i j)
unfolding pair_collection collection codes join itoa
pair_collection-IsForPair n i j = (refl, simp append_assoc)

not_common : has_prefix (codes "nchoose2") (codes "nchoose2common,") ≡ false
unfolding has_prefix codes
not_common = refl

-- `nchoose2` is accepted; the endorsement policy asks for members of two of the orgs, with a member
-- of each org; there are as many collections as pairs of orgs, each pair has a collection with its
-- name and its policy, and each collection is one of a pair.
pub compute_policies-pairs :
    (n : Options)
    → n.private_structure ≡ codes "nchoose2"
    → (p : Policies) × (compute_policies n ≡ ok p)
      × ((s : Bytes) × IsMembers 1 (orgs_of n) s
          × (p.endorsement_policy ≡ codes "OutOf(2, " ++ (s ++ codes ")")))
      × (2 * length p.collections ≡ orgs_of n * (orgs_of n - 1))
      × ((q : PairOf 1 (orgs_of n))
          → (c : Collection) × Memᴰ c p.collections × IsForPair q.low q.high c)
      × All (λ c. (q : PairOf 1 (orgs_of n)) × IsForPair q.low q.high c) p.collections
unfolding compute_policies pair_policies
compute_policies-pairs n e =
    let count : suc (orgs_of n) - 1 ≡ orgs_of n = omega arith in
    (
      pair_policies n,
      simp (e, not_common, bytes_eq_refl),
      (members n 1, members-IsMembers n 1, refl),
      length-pairs (pair_collection n) 1 (orgs_of n) (omega arith)
          ∙ ap (λ (k : ℕ). k * (k - 1)) count,
      λ q. (
        pair_collection n q.low q.high,
        Mem-pairs (pair_collection n) 1 (orgs_of n) q,
        pair_collection-IsForPair n q.low q.high,
      ),
      All-pairs (pair_collection n) 1 (orgs_of n)
          (λ c. (q : PairOf 1 (orgs_of n)) × IsForPair q.low q.high c)
          (λ q. (q, pair_collection-IsForPair n q.low q.high)),
    )
