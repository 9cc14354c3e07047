-- ===== src/Examples/Topology.antt =====
-- Networks of concrete options.
use mathlib.Core.List.{Memᴰ}
use fabric_network_builder.Prelude.{
  ◌*◌, ◌-◌, ◌≡◌, ◌↔◌, inr, refl, arith, false, some, List, [], ◌∷◌, ◌++◌, Bytes, codes, bytes_eq,
  has_prefix, split, join, occurrences, pos, negsuc, wrap, half, ◌+ℤ◌, ◌*ℤ◌, ◌-ℤ◌, All, ok, err,
  length, get_elem?,
}
use fabric_network_builder.Prelude.Decimal.{itoa, print_ℕ}
use fabric_network_builder.Topology.Options.{Options, default_options, improper_vanity_list}
use fabric_network_builder.Topology.Policies.{
  Policies, Collection, compute_policies, common_policies, pair_policies, shared_policies,
  collection, pair_collection, vanity_collection, pairs, members, required_peers, max_peers, range',
}
use fabric_network_builder.Topology.Policies.Pairs.{PairOf}
use fabric_network_builder.Topology.Policies.Collections.{
  HasCounts, IsMembers, IsForPair, compute_policies-HasCounts, compute_policies-pairs,
}
use fabric_network_builder.Topology.Policies.Vanity.{
  IsForNames, compute_policies-vanity, compute_policies-vanity_error,
}
use fabric_network_builder.Topology.Build.{
  Network, new, network_of, with_connect_domain, with_min_endorsers, new_orderer, new_org,
  orgs_list, peer_list, all_ports, org_indices,
}
use fabric_network_builder.Topology.Build.Accepted.{IsBuildable, IsNamed, new_iff}
use fabric_network_builder.Topology.Build.Settled.{IsSettled, new-IsSettled}
use fabric_network_builder.Topology.Build.Nodes.{new-lengths, new-peer_ports}
use fabric_network_builder.Topology.Build.Published.{
  peer_51, IsSmall, published, published_injective,
}

runs : Unit {0}
unfolding codes bytes_eq has_prefix split join occurrences wrap half ◌+ℤ◌ ◌*ℤ◌ ◌-ℤ◌ itoa print_ℕ
    compute_policies common_policies pair_policies shared_policies collection pair_collection
    vanity_collection pairs members required_peers max_peers range' new network_of
    with_connect_domain with_min_endorsers new_orderer new_org orgs_list peer_list all_ports
    org_indices
runs = tt

-- Two orgs with two peers, and the vanity collections of three orgs.
abbrev vanity_options : Options
vanity_options = record default_options {
  org_count = pos 3;
  private_structure = codes "nchoose2common,a,b,c";
}

-- What the options come to.
abbrev default_network : Network
default_network =
    network_of (with_connect_domain default_options)
      (shared_policies (with_connect_domain default_options))

accepted : new default_options ≡ ok default_network
unfolding runs
accepted = refl

nodes :
    (org_indices default_network ≡ codes "1" ∷ codes "2" ∷ [])
    × (default_network.options.min_endorsers ≡ pos 0)
    × (published default_network (peer_51 3) ≡ some (codes "10051"))
unfolding runs published
nodes = (refl, refl, refl)

abbrev vanity_policies : Policies
vanity_policies = record {
  endorsement_policy = codes "Or('Org1MSP.member', OutOf(2, 'Org2MSP.member', 'Org3MSP.member'))";
  collections =
      record {
        name = codes "b_c";
        policy = codes "OR('Org1MSP.member','Org2MSP.member','Org3MSP.member')";
        required_peer_count = pos 3;
        max_peer_count = pos 5;
        block_to_live = pos 0;
        member_only_read = false;
        member_only_write = false;
      }
      ∷ [];
}

vanity_run : compute_policies vanity_options ≡ ok vanity_policies
unfolding runs
vanity_run = refl

new_iff_example :
    ((n : Network) × (new vanity_options ≡ ok n))
    ↔ (IsBuildable vanity_options × IsNamed vanity_options)
new_iff_example = new_iff vanity_options

vanity-accepted : (n : Network) × (new vanity_options ≡ ok n)
unfolding runs
vanity-accepted = new_iff_example.1 (
  record {
    some_orgs = omega arith;
    some_peers = omega arith;
    some_orderers = omega arith;
    etcdraft = refl;
  },
  inr refl,
)

abbrev majority_options : Options
majority_options = record default_options { min_endorsers = negsuc 0 }

abbrev majority_network : Network
majority_network =
    network_of (with_connect_domain majority_options)
      (shared_policies (with_connect_domain majority_options))

new-IsSettled_example : IsSettled majority_options (2 * 2) majority_network
unfolding runs
new-IsSettled_example =
    new-IsSettled majority_options majority_network 2 2 refl refl (omega arith) refl

new-lengths_example :
    (length default_network.orgs ≡ 2)
    × (length default_network.peer_indices ≡ 2)
    × (length default_network.orderers ≡ 1)
    × (length default_network.peer_ports ≡ 2 * 2)
new-lengths_example = new-lengths default_options default_network accepted

new-peer_ports_example :
    get_elem? default_network.peer_ports 3
    ≡ some
        (record { org = codes "2"; peer = codes "1"; bootstrap = codes "0"; prefix = codes "100" })
unfolding runs
new-peer_ports_example =
    new-peer_ports default_options default_network 1 1 accepted (omega arith) (omega arith)
      (omega arith)

default-IsSmall : IsSmall default_options
default-IsSmall = record { orderers = omega arith; orgs = omega arith; peers = omega arith }

published_injective_example : peer_51 3 ≡ peer_51 3
unfolding runs published
published_injective_example =
    published_injective default_options default_network accepted default-IsSmall (peer_51 3)
      (peer_51 3) (codes "10051") refl refl

compute_policies-HasCounts_example :
    All (HasCounts vanity_options (3 * 2)) vanity_policies.collections
compute_policies-HasCounts_example =
    compute_policies-HasCounts vanity_options vanity_policies 3 2 refl refl (omega arith)
      (omega arith) vanity_run

abbrev pair_options : Options
pair_options = record default_options { private_structure = codes "nchoose2" }

compute_policies-pairs_example :
    (p : Policies) × (compute_policies pair_options ≡ ok p)
    × ((s : Bytes) × IsMembers 1 2 s
        × (p.endorsement_policy ≡ codes "OutOf(2, " ++ (s ++ codes ")")))
    × (2 * length p.collections ≡ 2 * (2 - 1))
    × ((q : PairOf 1 2) → (c : Collection) × Memᴰ c p.collections × IsForPair q.low q.high c)
    × All (λ c. (q : PairOf 1 2) × IsForPair q.low q.high c) p.collections
compute_policies-pairs_example = compute_policies-pairs pair_options refl

abbrev bc : List Bytes
bc = codes "b" ∷ codes "c" ∷ []

compute_policies-vanity_example :
    (p : Policies) × (compute_policies vanity_options ≡ ok p)
    × ((s : Bytes) × IsMembers 2 3 s
        × (p.endorsement_policy ≡ codes "Or('Org1MSP.member', OutOf(2, " ++ (s ++ codes "))")))
    × (2 * length p.collections ≡ 2 * (2 - 1))
    × ((r : PairOf 2 3)
        → (c : Collection) × Memᴰ c p.collections × IsForNames (codes "a" ∷ bc) r.low r.high c)
    × All (λ c. (r : PairOf 2 3) × IsForNames (codes "a" ∷ bc) r.low r.high c) p.collections
unfolding runs
compute_policies-vanity_example =
    compute_policies-vanity vanity_options (codes "a") bc refl (omega arith) refl

abbrev short_options : Options
short_options = record vanity_options { org_count = pos 4 }

compute_policies-vanity_error_example : compute_policies short_options ≡ err improper_vanity_list
unfolding runs
compute_policies-vanity_error_example =
    compute_policies-vanity_error short_options (codes "a") bc refl (omega arith) (ground arith)
