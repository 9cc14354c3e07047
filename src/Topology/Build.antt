-- ===== src/Topology/Build.antt =====
-- internal/topology/topology.go: `New`, the network of the options, and what is read off it.
pub mod Ports
pub mod Accepted
pub mod Settled
pub mod Shape
pub mod Nodes
pub mod Published
use fabric_network_builder.Prelude.{
  ℕ, ◌+◌, ◌*◌, not, List, [], ◌∷◌, ◌++◌, map, if◌then◌else◌, Bytes, codes, bytes_eq, ℤ, pos, negsuc,
  pos_part, ltb_ℤ, eqb_ℤ, wrap, half, ◌+ℤ◌, Result, ok, err, ◌>>=◌,
}
use fabric_network_builder.Prelude.Decimal.{itoa}
use fabric_network_builder.Topology.Options.{
  Options, TopologyError, org_count_too_small, peer_count_too_small, orderer_count_too_small,
  unsupported_orderer_type,
}
use fabric_network_builder.Topology.Policies.{
  Collection, Policies, compute_policies, range', up_to, num, orgs_of, total_peers,
}

pub record Orderer : Type 0 where
  pub host : Bytes
  pub dir : Bytes
  pub port : Bytes
  pub host_port : Bytes
  pub index : ℕ

pub record Org : Type 0 where
  pub index : Bytes
  pub ca_port : Bytes

pub record PeerPort : Type 0 where
  pub org : Bytes
  pub peer : Bytes
  pub bootstrap : Bytes
  pub prefix : Bytes

-- The embedded options are the field `options`.
pub record Network : Type 0 where
  pub endorsement_policy : Bytes
  pub orgs : List Org
  pub peer_indices : List Bytes
  pub orderers : List Orderer
  pub peer_ports : List PeerPort
  pub collections : List Collection
  pub options : Options

orderer_name : ℕ → Bytes → Bytes
orderer_name i domain = codes "orderer" ++ (num i ++ (codes "." ++ domain))

-- The body of the loop over the orderers.
unfoldable pub new_orderer : Options → ℕ → Orderer
unfolding orderer_name
new_orderer opts i = record {
  host = orderer_name i opts.connect_domain_name;
  dir = orderer_name i opts.domain_name;
  port = codes "7050";
  host_port = itoa (wrap (pos (7050 + 1000 * i)));
  index = i;
}

unfoldable pub new_org : ℕ → Org
new_org i = record { index = num i; ca_port = itoa (wrap (pos (1000 * i + 6054))) }

-- The two nested loops over the peers; `p` is the next port prefix.
abbrev peer_port : Org → Bytes → ℤ → PeerPort
peer_port org j p = record { org = org.index; peer = j; bootstrap = codes "0"; prefix = itoa p }

abbrev next_prefix : ℤ → ℤ
next_prefix p = wrap (p +ℤ pos 10)

org_ports : Org → List Bytes → ℤ → List PeerPort × ℤ
org_ports org [] p = ([], p)
org_ports org (j ∷ js) p =
    let (rest, p') = org_ports org js (next_prefix p) in (peer_port org j p ∷ rest, p')

unfoldable pub all_ports : List Org → List Bytes → ℤ → List PeerPort
unfolding org_ports
all_ports [] js p = []
all_ports (org ∷ orgs) js p = let (first, p') = org_ports org js p in first ++ all_ports orgs js p'

-- The default of the connect domain.
unfoldable pub with_connect_domain : Options → Options
with_connect_domain opts =
    if bytes_eq opts.connect_domain_name []
    then record opts { connect_domain_name = opts.domain_name }
    else opts

-- `--min-endorsers=-1`
unfoldable pub with_min_endorsers : Options → Options
unfolding total_peers
with_min_endorsers opts =
    if eqb_ℤ opts.min_endorsers (negsuc 0)
    then record opts { min_endorsers = wrap (half (total_peers opts) +ℤ pos 1) }
    else opts

unfoldable pub orgs_list : Options → List Org
orgs_list opts = map new_org (up_to 1 (orgs_of opts))

unfoldable pub peer_list : Options → List Bytes
peer_list opts = map num (range' 0 (pos_part opts.peer_count))

unfoldable pub network_of : Options → Policies → Network
network_of opts policies = record {
  endorsement_policy = policies.endorsement_policy;
  orgs = orgs_list opts;
  peer_indices = peer_list opts;
  orderers = map (new_orderer opts) (range' 0 (pos_part opts.orderer_count));
  peer_ports = all_ports (orgs_list opts) (peer_list opts) (pos 70);
  collections = policies.collections;
  options = with_min_endorsers opts;
}

finish : Options → Policies → Result TopologyError Network
finish opts policies = ok (network_of opts policies)

-- What `New` does behind its guards.
unfoldable pub build : Options → Result TopologyError Network
unfolding finish
build opts = compute_policies opts >>= finish opts

-- `New`
unfoldable pub new : Options → Result TopologyError Network
unfolding build
new opts =
    if ltb_ℤ opts.org_count (pos 1)
    then err org_count_too_small
    else if ltb_ℤ opts.peer_count (pos 1)
    then err peer_count_too_small
    else if ltb_ℤ opts.orderer_count (pos 1)
    then err orderer_count_too_small
    else if not (bytes_eq opts.orderer_type (codes "etcdraft"))
    then err (unsupported_orderer_type opts.orderer_type)
    else build (with_connect_domain opts)

-- `OrgIndices`
unfoldable pub org_indices : Network → List Bytes
org_indices n = map (λ o. o.index) n.orgs
