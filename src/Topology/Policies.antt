-- ===== src/Topology/Policies.antt =====
-- internal/topology/topology.go: `computePolicies`, the endorsement policy and the private data
-- collections.
pub mod Pairs
pub mod Collections
pub mod Vanity
use fabric_network_builder.Prelude.{
  ℕ, zero, suc, ◌-◌, Bool, false, not, List, [], ◌∷◌, ◌++◌, map, if◌then◌else◌, length, Option,
  none, some, get_elem?, Bytes, codes, bytes_eq, has_prefix, split, join, ℤ, pos, negsuc, pos_part,
  eqb_ℤ, wrap, half, ◌-ℤ◌, ◌*ℤ◌, Result, ok, err,
}
use mathlib.Core.List.{flat_map}
use fabric_network_builder.Prelude.Decimal.{itoa}
use fabric_network_builder.Topology.Options.{Options, TopologyError, improper_vanity_list}

pub record Collection : Type 0 where
  pub name : Bytes
  pub policy : Bytes
  pub required_peer_count : ℤ
  pub max_peer_count : ℤ
  pub block_to_live : ℤ
  pub member_only_read : Bool
  pub member_only_write : Bool

-- The counts of a loop: `rounds` numbers from `i` on.
unfoldable pub range' : ℕ → ℕ → List ℕ
range' i zero = []
range' i (suc rounds) = i ∷ range' (suc i) rounds

-- `for i := from; i <= to; i++`
abbrev pub up_to : ℕ → ℕ → List ℕ
up_to from to = range' from (suc to - from)

-- n.OrgCount * n.PeerCount
unfoldable pub total_peers : Options → ℤ
total_peers n = wrap (n.org_count *ℤ n.peer_count)

-- `req` and `maxPeers`
unfoldable pub required_peers : Options → ℤ
unfolding total_peers
required_peers n =
    if eqb_ℤ n.req_peer_count (negsuc 0) then half (total_peers n) else n.req_peer_count

unfoldable pub max_peers : Options → ℤ
unfolding total_peers
max_peers n =
    if eqb_ℤ n.max_peer_count (negsuc 0) then wrap (total_peers n -ℤ pos 1) else n.max_peer_count

-- OrgCount, once it has been found to be positive.
abbrev pub orgs_of : Options → ℕ
orgs_of n = pos_part n.org_count

abbrev pub num : ℕ → Bytes
num i = itoa (pos i)

-- 'Org<i>MSP.member'
unfoldable pub member : ℕ → Bytes
member i = codes "'Org" ++ (num i ++ codes "MSP.member'")

unfoldable pub members : Options → ℕ → Bytes
unfolding member
members n from = join (map member (up_to from (orgs_of n))) (codes ", ")

-- The closure `collection`.
unfoldable pub collection : Options → Bytes → Bytes → Collection
collection n name policy = record {
  name = name;
  policy = policy;
  required_peer_count = required_peers n;
  max_peer_count = max_peers n;
  block_to_live = pos 0;
  member_only_read = false;
  member_only_write = false;
}

-- vanity[i-1]. The list has been found to hold a name for each org.
abbrev or_empty : Option Bytes → Bytes
or_empty none = []
or_empty (some s) = s

vanity_name : List Bytes → ℕ → Bytes
vanity_name vanity i = or_empty (get_elem? vanity (i - 1))

-- The body of the two nested loops, for the pair of orgs i and j.
unfoldable pub vanity_collection : Options → List Bytes → ℕ → ℕ → Collection
unfolding vanity_name
vanity_collection n vanity i j =
    collection n (vanity_name vanity i ++ (codes "_" ++ vanity_name vanity j)) (
      codes "OR('Org"
      ++ (num 1
          ++ (codes "MSP.member','Org"
              ++ (num i ++ (codes "MSP.member','Org" ++ (num j ++ codes "MSP.member')"))))))

unfoldable pub pair_collection : Options → ℕ → ℕ → Collection
pair_collection n i j =
    collection n (codes "org" ++ (num i ++ (codes "org" ++ num j)))
      (codes "OR('Org" ++ (num i ++ (codes "MSP.member', 'Org" ++ (num j ++ codes "MSP.member')"))))

-- `for i := from; i <= OrgCount` and in it `for j := i + 1; j <= OrgCount`.
unfoldable pub pairs {ℓ} : {A : Type ℓ} → (ℕ → ℕ → A) → ℕ → ℕ → List A
unfolding flat_map
pairs f from to = flat_map (λ i. map (f i) (up_to (suc i) to)) (up_to from to)

-- The fields of the network that `computePolicies` sets.
pub record Policies : Type 0 where
  pub endorsement_policy : Bytes
  pub collections : List Collection

abbrev pub tail {ℓ} : {A : Type ℓ} → List A → List A
tail [] = []
tail (x ∷ xs) = xs

-- The branch of `nchoose2common,NAMES`, at the names.
unfoldable pub vanity_policies : Options → List Bytes → Policies
vanity_policies n vanity = record {
  endorsement_policy = codes "Or('Org1MSP.member', OutOf(2, " ++ (members n 2 ++ codes "))");
  collections = pairs (vanity_collection n vanity) 2 (orgs_of n);
}

unfoldable pub common_policies : Options → List Bytes → Result TopologyError Policies
unfolding vanity_policies
common_policies n vanity =
    if not (eqb_ℤ (pos (length vanity)) n.org_count)
    then err improper_vanity_list
    else ok (vanity_policies n vanity)

unfoldable pub pair_policies : Options → Policies
pair_policies n = record {
  endorsement_policy = codes "OutOf(2, " ++ (members n 1 ++ codes ")");
  collections = pairs (pair_collection n) 1 (orgs_of n);
}

abbrev any_of : Bytes → Bytes
any_of s = codes "OR(" ++ (s ++ codes ")")

unfoldable pub shared_policies : Options → Policies
shared_policies n = record {
  endorsement_policy = any_of (members n 1);
  collections = collection n (codes "private") (any_of (members n 1)) ∷ [];
}

unfoldable pub compute_policies : Options → Result TopologyError Policies
compute_policies n =
    if has_prefix n.private_structure (codes "nchoose2common,")
    then common_policies n (tail (split n.private_structure b','))
    else if bytes_eq n.private_structure (codes "nchoose2")
    then ok (pair_policies n)
    else ok (shared_policies n)
