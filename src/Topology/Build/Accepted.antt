-- ===== src/Topology/Build/Accepted.antt =====
-- When `New` accepts its options.
use fabric_network_builder.Prelude.{
  ℕ, suc, ◌≡◌, ◌↔◌, ◌⊎◌, inl, inr, refl, ap, ◌∙◌, sym, arith, ◌≤◌, false, List, [], ◌∷◌, length,
  Bool-cases, Bytes, codes, bytes_eq, bytes_eq_iff, has_prefix, split, occurrences, length-split,
  pos, pos_part, eqb_ℤ_iff, ok, ◌>>=◌, >>=-eq-ok,
}
use fabric_network_builder.Topology.Options.{Options}
use fabric_network_builder.Topology.Policies.{
  Policies, tail, members, collection, required_peers, max_peers, total_peers, vanity_collection,
  vanity_policies, common_policies, pair_collection, pair_policies, shared_policies,
  compute_policies,
}
use fabric_network_builder.Topology.Build.{
  Network, new, build, finish, network_of, with_connect_domain,
}

-- The guards of `New`.
pub record IsBuildable (opts : Options) : Type 0 where
  pub some_orgs : 1 ≤ pos_part opts.org_count
  pub some_peers : 1 ≤ pos_part opts.peer_count
  pub some_orderers : 1 ≤ pos_part opts.orderer_count
  pub etcdraft : opts.orderer_type ≡ codes "etcdraft"

guards :
    (opts : Options) {n : Network}
    → new opts ≡ ok n
    → IsBuildable opts × (build (with_connect_domain opts) ≡ ok n)
unfolding new
guards opts e = (
  record {
    some_orgs = ground arith;
    some_peers = ground arith;
    some_orderers = ground arith;
    etcdraft = ground (arith, bytes_eq_iff opts.orderer_type (codes "etcdraft"));
  },
  ground arith,
)

new_accepts : (opts : Options) → IsBuildable opts → new opts ≡ build (with_connect_domain opts)
unfolding new
new_accepts opts h = ground (arith, bytes_eq_iff opts.orderer_type (codes "etcdraft"))

-- What an accepted network is made of.
abbrev pub IsMade : Options → Network → Type 0
IsMade opts n =
    (policies : Policies) × (compute_policies (with_connect_domain opts) ≡ ok policies)
    × (n ≡ network_of (with_connect_domain opts) policies)

pub new-eq-ok :
    (opts : Options) (n : Network) → (new opts ≡ ok n) ↔ (IsBuildable opts × IsMade opts n)
unfolding build finish
new-eq-ok opts n = (to, from)
  where
    to : new opts ≡ ok n → IsBuildable opts × IsMade opts n
    to e =
        let (b, made) = guards opts e in
        let (policies, computed, same) =
          >>=-eq-ok (compute_policies (with_connect_domain opts))
            (finish (with_connect_domain opts)) made in
        (b, (policies, computed, ground arith))

    from : IsBuildable opts × IsMade opts n → new opts ≡ ok n
    from (b, (policies, computed, same)) =
        new_accepts opts b
        ∙ ap (λ m. m >>= finish (with_connect_domain opts)) computed
        ∙ ap ok (sym same)

pub with_connect_domain-counts :
    (opts : Options)
    → ((with_connect_domain opts).org_count ≡ opts.org_count)
      × ((with_connect_domain opts).peer_count ≡ opts.peer_count)
      × ((with_connect_domain opts).orderer_count ≡ opts.orderer_count)
unfolding with_connect_domain
with_connect_domain-counts opts = ground arith

-- The structure with a name for each org has the orgs' number of commas; any other is accepted.
abbrev pub IsNamed : Options → Type 0
IsNamed opts =
    (has_prefix opts.private_structure (codes "nchoose2common,") ≡ false)
    ⊎ (pos (occurrences b',' opts.private_structure) ≡ opts.org_count)

length-tail : (ps : List Bytes) (k : ℕ) → length ps ≡ suc k → length (tail ps) ≡ k
length-tail [] k e = absurd (omega arith)
length-tail (p ∷ ps) k e = omega arith

names_of : Options → List Bytes
names_of opts = tail (split opts.private_structure b',')

names_of-length :
    (opts : Options) → length (names_of opts) ≡ occurrences b',' opts.private_structure
unfolding names_of
names_of-length opts =
    length-tail (split opts.private_structure b',') _ (length-split opts.private_structure b',')

common-accepts :
    (opts : Options) (names : List Bytes)
    → ((p : Policies) × (common_policies opts names ≡ ok p)) ↔ (pos (length names) ≡ opts.org_count)
unfolding common_policies
common-accepts opts names = (
  λ (p, e). (eqb_ℤ_iff (pos (length names)) opts.org_count).0 (ground arith),
  λ e. (vanity_policies opts names, rw ((eqb_ℤ_iff (pos (length names)) opts.org_count).1 e)),
)

other-accepts :
    (opts : Options)
    → has_prefix opts.private_structure (codes "nchoose2common,") ≡ false
    → (p : Policies) × (compute_policies opts ≡ ok p)
unfolding compute_policies
other-accepts opts e = elim (Bool-cases (bytes_eq opts.private_structure (codes "nchoose2"))) [
  | inl pair ↦ (pair_policies opts, rw (e, pair))
  | inr shared ↦ (shared_policies opts, rw (e, shared))
]

compute_policies-accepts :
    (opts : Options) → ((p : Policies) × (compute_policies opts ≡ ok p)) ↔ IsNamed opts
unfolding compute_policies names_of
compute_policies-accepts opts =
    elim (Bool-cases (has_prefix opts.private_structure (codes "nchoose2common,"))) [
      | inl common ↦
          let (to, from) = common-accepts opts (names_of opts) in
          let same : compute_policies opts ≡ common_policies opts (names_of opts) = rw common in
          (
            λ (p, e). inr (ap pos (sym (names_of-length opts)) ∙ to (p, sym same ∙ e)),
            λ h. elim h [
              | inl other ↦ cc (common, other)
              | inr fits ↦ let (p, e) = from (ap pos (names_of-length opts) ∙ fits) in (p, same ∙ e)
            ],
          )
      | inr other ↦ (λ r. inl other, λ h. other-accepts opts other)
    ]

-- The policies do not depend on the domains of the nodes.
pub compute_policies-connect_domain :
    (opts : Options) → compute_policies (with_connect_domain opts) ≡ compute_policies opts
unfolding with_connect_domain compute_policies common_policies vanity_policies vanity_collection
    pair_policies pair_collection shared_policies members collection required_peers max_peers
    total_peers
compute_policies-connect_domain opts = elim (Bool-cases (bytes_eq opts.connect_domain_name [])) [
  | inl unset ↦ rw unset refl
  | inr set ↦ rw set refl
]

-- `New` returns a network exactly when every count is positive, the orderer type is etcdraft and, if
-- the private structure begins with "nchoose2common,", it has as many commas as there are orgs.
pub new_iff :
    (opts : Options) → ((n : Network) × (new opts ≡ ok n)) ↔ (IsBuildable opts × IsNamed opts)
new_iff opts =
    let policies = compute_policies-accepts opts in
    let same = compute_policies-connect_domain opts in
    (
      λ (n, e).
          let (b, (p, computed, made)) = (new-eq-ok opts n).0 e in
          (b, policies.0 (p, sym same ∙ computed)),
      λ (b, named).
          let (p, computed) = policies.1 named in
          let n = network_of (with_connect_domain opts) p in
          (n, (new-eq-ok opts n).1 (b, (p, same ∙ computed, refl))),
    )
