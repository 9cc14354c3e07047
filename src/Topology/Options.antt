-- ===== src/Topology/Options.antt =====
-- internal/topology/topology.go: the options that shape a network, and the errors of `New`.
use fabric_network_builder.Prelude.{Bool, false, List, [], Bytes, codes, ℤ, pos, negsuc}

pub record Options : Type 0 where
  pub cc_name : Bytes
  pub domain_name : Bytes
  pub connect_domain_name : Bytes
  pub private_structure : Bytes
  pub orderer_type : Bytes
  pub orderer_san_domains : List Bytes
  pub peer_san_domains : List Bytes
  pub org_count : ℤ
  pub peer_count : ℤ
  pub min_endorsers : ℤ
  pub req_peer_count : ℤ
  pub max_peer_count : ℤ
  pub execute_timeout : ℤ
  pub orderer_count : ℤ
  pub enable_node_ous : Bool

-- `DefaultOptions`
abbrev pub default_options : Options
default_options = record {
  cc_name = codes "com_luthersystems_chaincode_substrate01";
  domain_name = codes "example.com";
  connect_domain_name = [];
  private_structure = codes "shared";
  orderer_type = codes "etcdraft";
  orderer_san_domains = [];
  peer_san_domains = [];
  org_count = pos 2;
  peer_count = pos 2;
  min_endorsers = pos 0;
  req_peer_count = negsuc 0;
  max_peer_count = negsuc 0;
  execute_timeout = pos 30;
  orderer_count = pos 1;
  enable_node_ous = false;
}

-- What `New` refuses.
pub data TopologyError : Type 0 where
  org_count_too_small : TopologyError
  peer_count_too_small : TopologyError
  orderer_count_too_small : TopologyError
  unsupported_orderer_type : Bytes → TopologyError
  improper_vanity_list : TopologyError
