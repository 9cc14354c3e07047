-- ===== src/Cli/Commands.antt =====
-- internal/cli/cli.go: the arguments that the commands make of an invocation, and the exit code.
pub mod Overrides
pub mod Exit
use fabric_network_builder.Prelude.{
  ℕ, ◌+◌, List, [], ◌∷◌, ◌++◌, Bool, true, false, not, ◌&&◌, ◌||◌, if◌then◌else◌, Option, none,
  some, Bytes, codes, bytes_eq, contains, cut, has_prefix, is_nil, ℤ, pos, ◌+ℤ◌, wrap, Result, ok,
  err, ◌>>=◌,
}
use fabric_network_builder.Prelude.Dict
use fabric_network_builder.Prelude.Dict.{Dict}
use fabric_network_builder.Prelude.Spaces.{fields}
use fabric_network_builder.Cli.Args.Options.{
  Values, str, integer, boolean, Command, ParseError, usage_error, help, fuel_spent,
}
use fabric_network_builder.Cli.Args.Parse.{Invocation}
use fabric_network_builder.Cli.Owner.{Owner, OwnerError}
use fabric_network_builder.Topology.Options.{Options, default_options}
use fabric_network_builder.Certs.Reissue.{ReissueOptions}

-- `v.lists[dest]`
abbrev list_of : Values → Bytes → List Bytes
list_of v dest = Dict.get_or dest v.lists []

unfoldable pub topology_options : Values → Options
topology_options v = record {
  cc_name = str v (codes "cc_name") default_options.cc_name;
  domain_name = str v (codes "domain_name") default_options.domain_name;
  connect_domain_name = str v (codes "connect_domain_name") default_options.connect_domain_name;
  private_structure = str v (codes "private_structure") default_options.private_structure;
  orderer_type = str v (codes "orderer_type") default_options.orderer_type;
  orderer_san_domains = list_of v (codes "orderer_san_domains");
  peer_san_domains = list_of v (codes "peer_san_domains");
  org_count = integer v (codes "org_count") default_options.org_count;
  peer_count = integer v (codes "peer_count") default_options.peer_count;
  min_endorsers = integer v (codes "min_endorsers") default_options.min_endorsers;
  req_peer_count = integer v (codes "req_peer_count") default_options.req_peer_count;
  max_peer_count = integer v (codes "max_peer_count") default_options.max_peer_count;
  execute_timeout = integer v (codes "execute_timeout") default_options.execute_timeout;
  orderer_count = integer v (codes "orderer_count") default_options.orderer_count;
  enable_node_ous = boolean v (codes "enable_node_ous") default_options.enable_node_ous;
}

abbrev is_set : {A : Type 0} → Option A → Bool
is_set none = false
is_set (some a) = true

-- The options that the command `reissue` passes on.
unfoldable pub reissue_options : Values → ReissueOptions
reissue_options v = record {
  now = none;
  crypto_config = str v (codes "crypto_config") (codes "crypto-config");
  type = str v (codes "type") (codes "both");
  nodes = list_of v (codes "node");
  days = integer v (codes "days") (pos 0);
  all_expired = boolean v (codes "all_expired") false;
  all = boolean v (codes "all") false;
  days_set = is_set (Dict.lookup (codes "days") v.ints);
  dry_run = boolean v (codes "dry_run") false;
  no_backup = boolean v (codes "no_backup") false;
}

-- The compose files, from whether there is one for CCaaS, and the storage.
unfoldable pub compose_files : Bool → Bytes → List Bytes
compose_files has_ccaas storage =
    codes "docker-compose-cli.yaml"
    ∷ ((if has_ccaas then codes "docker-compose-ccaas.yaml" ∷ [] else [])
        ++ (if bytes_eq storage (codes "couchdb")
            then codes "docker-compose-couch.yaml" ∷ []
            else []))

-- `localPath`, in the project's directory, with `filepath.Join`.
unfoldable pub local_path : (List Bytes → Bytes) → Bytes → Bytes → Bytes
local_path join_path dir p =
    if has_prefix p (codes "/")
    then join_path (dir ∷ (codes "." ++ p) ∷ [])
    else join_path (dir ∷ p ∷ [])

pub record CcArgs : Type 0 where
  pub version : Bytes
  pub path : Bytes
  pub names : List Bytes

-- The names of the arguments that are empty.
unfoldable pub missing_args : Dict Bytes → List Bytes → List Bytes
missing_args named [] = []
missing_args named (k ∷ ks) =
    let rest = missing_args named ks in if is_nil (Dict.get_or k named []) then k ∷ rest else rest

unfoldable pub named_args :
    (Bytes → Bytes) → Dict Bytes → List Bytes → List Bytes → Result (List Bytes) CcArgs
named_args local named names missing =
    if not (is_nil missing)
    then err missing
    else ok (record {
      version = Dict.get_or (codes "cc_version") named [];
      path = local (Dict.get_or (codes "cc_path") named []);
      names = names;
    })

-- `chaincodeArgs`; its error has the names of the empty arguments.
unfoldable pub chaincode_args : (Bytes → Bytes) → Dict Bytes → Result (List Bytes) CcArgs
chaincode_args local named =
    let names = fields (Dict.get_or (codes "cc_variants") named []) in
    if is_nil names
    then ok (record { version = []; path = []; names = [] })
    else named_args local named names
        (missing_args named (codes "cc_name" ∷ codes "cc_version" ∷ codes "cc_path" ∷ []))

pub data OverrideError : Type 0 where
  bad_override : Bytes → OverrideError
  unknown_name : Bytes → List Bytes → OverrideError
  repeated_name : Bytes → OverrideError

-- The checks on a pair of a name and an image.
unfoldable pub add_override :
    List Bytes → Bytes → Bytes → Bytes → Dict Bytes → Result OverrideError (Dict Bytes)
add_override names p name image out =
    if is_nil name || is_nil image
    then err (bad_override p)
    else if not (contains names name)
    then err (unknown_name name names)
    else if is_set (Dict.lookup name out)
    then err (repeated_name name)
    else ok (Dict.insert name image out)

unfoldable pub parse_override :
    List Bytes → Bytes → Bytes × Option Bytes → Dict Bytes → Result OverrideError (Dict Bytes)
parse_override names p (name, none) out = err (bad_override p)
parse_override names p (name, some image) out = add_override names p name image out

-- The loop over the pairs, with the images so far.
unfoldable pub parse_pairs :
    List Bytes → List Bytes → Dict Bytes → Result OverrideError (Dict Bytes)
parse_pairs names [] out = ok out
parse_pairs names (p ∷ pairs) out =
    parse_override names p (cut b'=' p) out >>= parse_pairs names pairs

unfoldable pub parse_image_overrides : List Bytes → List Bytes → Result OverrideError (Dict Bytes)
parse_image_overrides pairs names = parse_pairs names pairs []

pub record CcaasService : Type 0 where
  pub service_name : Bytes
  pub chaincode_id : Bytes
  pub port : ℤ
  pub image : Bytes

abbrev default_image : Bytes
default_image = codes "luthersystems/substrate:$CHAINCODE_VERSION"

-- The services of the chaincodes from a number on.
unfoldable pub ccaas_services : Dict Bytes → Dict Bytes → List Bytes → ℕ → List CcaasService
ccaas_services images ids [] i = []
ccaas_services images ids (name ∷ names) i =
    record {
      service_name = name ++ codes "-peer0";
      chaincode_id = Dict.get_or name ids [];
      port = wrap (pos 9080 +ℤ pos i);
      image = Dict.get_or name images default_image;
    }
    ∷ ccaas_services images ids names (i + 1)

-- How a command ends: a usage error, or any other.
pub data CommandError : Type 0 where
  usage : CommandError
  other : CommandError

abbrev ended : Result CommandError (Unit {0}) → ℕ
ended (ok u) = 0
ended (err usage) = 2
ended (err other) = 1

abbrev owned :
    (Option Owner → Result CommandError (Unit {0})) → Result OwnerError (Option Owner) → ℕ
owned command (ok o) = ended (command o)
owned command (err e) = 2

-- `Run`: the exit code, from the parse of the command line, the parse of --chown and the command.
unfoldable pub exit_code :
    (Bytes → Result OwnerError (Option Owner))
    → (Invocation → Option Owner → Result CommandError (Unit {0}))
    → Result ParseError Invocation
    → ℕ
exit_code chown command (err (help cmd)) = 0
exit_code chown command (err (usage_error cmd m)) = 2
exit_code chown command (err fuel_spent) = 2
exit_code chown command (ok inv) = owned (command inv) (chown (str inv.v (codes "chown") []))
