-- ===== src/Cli/Spec.antt =====
-- internal/cli/spec.go: the options and commands of the builder.
pub mod Names
use fabric_network_builder.Prelude.{Bool, true, false, List, [], ◌∷◌, Bytes, codes}
use fabric_network_builder.Cli.Args.Options.{
  Kind, kind_bool, kind_string, kind_int, kind_list, kind_append, CliOption, Positional, Command,
}

abbrev pub opt : Kind → Bytes → Bytes → List Bytes → CliOption
opt k dest help names = record {
  dest = dest;
  help = help;
  meta = [];
  names = names;
  kind = k;
  value = false;
}

abbrev pub flag : Bytes → Bool → Bytes → List Bytes → CliOption
flag dest value help names = record {
  dest = dest;
  help = help;
  meta = [];
  names = names;
  kind = kind_bool;
  value = value;
}

-- An option of the literals that give `meta`.
abbrev repeated : Bytes → Bytes → Bytes → List Bytes → CliOption
repeated dest help meta names = record {
  dest = dest;
  help = help;
  meta = meta;
  names = names;
  kind = kind_append;
  value = false;
}

abbrev positional : Bytes → Bytes → Positional
positional dest help = record { dest = dest; help = help }

-- The options before the command.
abbrev pub globals : List CliOption
globals =
    (opt kind_string (codes "config") (codes "ignored; kept so existing callers still parse")
      ((codes "--config") ∷ []))
    ∷ (opt kind_string (codes "channel") (codes "the channel used on the network (default: luther)")
        ((codes "--channel") ∷ []))
    ∷ (opt kind_string (codes "chown") (codes "set the user:group of generated files")
        ((codes "--chown") ∷ []))
    ∷ (flag (codes "force") true (codes "force the operation without confirmation")
        ((codes "--force") ∷ (codes "-f") ∷ []))
    ∷ (opt kind_string (codes "storage")
        (codes "set the database backend to use (couchdb adds the CouchDB containers)")
        ((codes "--storage") ∷ (codes "-s") ∷ []))
    ∷ []

abbrev pub cmd_generate : Command
cmd_generate = record {
  name = codes "generate";
  help = codes "generate a new network";
  options =
      (opt kind_string (codes "cc_name")
        (codes "chaincode name (default: com_luthersystems_chaincode_substrate01)")
        ((codes "--cc-name") ∷ []))
      ∷ (opt kind_string (codes "domain_name")
          (codes "infrastructure domain name (default: example.com)")
          ((codes "--domain-name") ∷ []))
      ∷ (opt kind_string (codes "connect_domain_name")
          (codes "configured domain name when connecting to peers and orderers")
          ((codes "--connect-domain-name") ∷ []))
      ∷ (flag (codes "enable_node_ous") true (codes "enable node OUs (disabled by default)")
          ((codes "--node-ous") ∷ []))
      ∷ (flag (codes "enable_node_ous") false (codes "disable node OUs (disabled by default)")
          ((codes "--no-node-ous") ∷ []))
      ∷ (opt kind_int (codes "org_count") (codes "number of organizations (default: 2)")
          ((codes "--org-count") ∷ []))
      ∷ (opt kind_int (codes "peer_count") (codes "number of peers per organization (default: 2)")
          ((codes "--peer-count") ∷ []))
      ∷ (opt kind_int (codes "min_endorsers")
          (codes "minimum number of transaction endorsers (default: 0; -1: a majority)")
          ((codes "--min-endorsers") ∷ []))
      ∷ (opt kind_string (codes "private_structure")
          (codes
            "structure of private collections set: shared, nchoose2 or nchoose2common,NAMES (default: shared)")
          ((codes "--private-structure") ∷ []))
      ∷ (opt kind_int (codes "req_peer_count")
          (codes "minimum number of private data dissemination peers")
          ((codes "--req-peer-count") ∷ []))
      ∷ (opt kind_int (codes "max_peer_count")
          (codes "maximum number of private data dissemination peers")
          ((codes "--max-peer-count") ∷ []))
      ∷ (opt kind_int (codes "execute_timeout")
          (codes "chaincode execute timeout in seconds (default: 30)")
          ((codes "--execute-timeout") ∷ []))
      ∷ (opt kind_string (codes "orderer_type") (codes "orderer cluster type: etcdraft")
          ((codes "--orderer-type") ∷ []))
      ∷ (opt kind_int (codes "orderer_count")
          (codes "number of orderer servers to generate config for (default: 1)")
          ((codes "--orderer-count") ∷ []))
      ∷ (flag (codes "template") true
          (codes "only render the network template. do not generate crypto assets")
          ((codes "--template") ∷ []))
      ∷ (flag (codes "template") false
          (codes "do not render a template. only generate crypto assets")
          ((codes "--no-template") ∷ []))
      ∷ (opt kind_string (codes "archive_path") (codes "generate a tar.xz for distribution")
          ((codes "--archive") ∷ (codes "-a") ∷ []))
      ∷ (opt kind_list (codes "orderer_san_domains")
          (codes "domain suffixes to add to SAN field of orderer certificates")
          ((codes "--orderer-san-domains") ∷ []))
      ∷ (opt kind_list (codes "peer_san_domains")
          (codes "domain suffixes to add to SAN field of peer certificates ({i} is the org index)")
          ((codes "--peer-san-domains") ∷ []))
      ∷ [];
  positionals = [];
}

abbrev pub cmd_extend : Command
cmd_extend = record {
  name = codes "extend";
  help = codes "extend an existing network";
  options =
      (opt kind_string (codes "archive_path") (codes "generate a tar.xz for distribution")
        ((codes "--archive") ∷ (codes "-a") ∷ []))
      ∷ (opt kind_string (codes "domain_name")
          (codes "infrastructure domain name (default: example.com)")
          ((codes "--domain-name") ∷ []))
      ∷ [];
  positionals = [];
}

abbrev pub cmd_up : Command
cmd_up = record {
  name = codes "up";
  help = codes "launch a network";
  options =
      (opt kind_string (codes "log_spec")
        (codes "ignored, as before; set FABRIC_LOGGING_SPEC instead") ((codes "--log-spec") ∷ []))
      ∷ (opt kind_string (codes "cc_version")
          (codes "chaincode version (for CCaaS): the substrate image tag")
          ((codes "--cc-version") ∷ []))
      ∷ [];
  positionals = [];
}

abbrev pub cmd_install : Command
cmd_install = record {
  name = codes "install";
  help = codes "install a chaincode archive (.tar.gz)";
  options =
      (flag (codes "init_required") true (codes "set chaincode to require init")
        ((codes "--init-required") ∷ []))
      ∷ (opt kind_string (codes "cc_pkg_name") (codes "ignored, as before")
          ((codes "--cc-pkg-name") ∷ []))
      ∷ [];
  positionals =
      (positional (codes "cc_name") (codes "chaincode name used to invoke its methods"))
      ∷ (positional (codes "cc_version") (codes "deployment version"))
      ∷ (positional (codes "cc_variants")
          (codes "deployment variants: the chaincode names to install, space separated"))
      ∷ (positional (codes "cc_path") (codes "path to the packaged chaincode tarball"))
      ∷ [];
}

abbrev pub cmd_generatecc : Command
cmd_generatecc = record {
  name = codes "generatecc";
  help = codes "generate chaincode archives (.tar.gz)";
  options =
      (flag (codes "ccaas") true (codes "use chaincode as a service") ((codes "--ccaas") ∷ []))
      ∷ (repeated (codes "image_override")
          (codes
            "override image for a CCaaS service (repeatable); NAME must match a chaincode in cc_variants")
          (codes "NAME=IMAGE") ((codes "--image-override") ∷ []))
      ∷ [];
  positionals =
      (positional (codes "cc_name") (codes "chaincode name used to invoke its methods"))
      ∷ (positional (codes "cc_version") (codes "deployment version"))
      ∷ (positional (codes "cc_variants")
          (codes "deployment variants: the chaincode names to package, space separated"))
      ∷ (positional (codes "cc_path") (codes "path to the packaged chaincode tarball"))
      ∷ [];
}

abbrev pub cmd_invoke : Command
cmd_invoke = record {
  name = codes "invoke";
  help = codes "submit a chaincode transaction and wait until it is committed";
  options =
      (flag (codes "init") true (codes "invoke the chaincode's Init (for --init-required)")
        ((codes "--init") ∷ []))
      ∷ (repeated (codes "peer")
          (codes "endorse on this peer (repeatable; default: the first peer of each org)")
          (codes "peerJ.orgI") ((codes "--peer") ∷ []))
      ∷ [];
  positionals =
      (positional (codes "cc_name") (codes "chaincode name"))
      ∷ (positional (codes "ctor")
          (codes "arguments as the peer CLI's -c took them: {\"Args\":[\"fn\",\"arg\"]}"))
      ∷ [];
}

abbrev pub cmd_ansible_vars : Command
cmd_ansible_vars = record {
  name = codes "ansible-vars";
  help = codes "write the network files as Ansible variables for the mars Kubernetes roles";
  options =
      (opt kind_string (codes "output") (codes "the file to write (default: standard output)")
        ((codes "--output") ∷ (codes "-o") ∷ []))
      ∷ (opt kind_string (codes "generate_from")
          (codes
            "first generate the network sized by this Ansible env file (num_orgs, num_peers, num_orderers, k8s_fabric_network_domain_root); an existing crypto-config is kept unless --force")
          ((codes "--generate-from") ∷ []))
      ∷ [];
  positionals = [];
}

abbrev pub cmd_down : Command
cmd_down = record {
  name = codes "down";
  help = codes "teardown network containers";
  options = [];
  positionals = [];
}

abbrev pub cmd_cert_expires : Command
cmd_cert_expires = record {
  name = codes "cert_expiries";
  help = codes "print expiration values for certs";
  options = [];
  positionals = [];
}

abbrev pub cmd_reissue : Command
cmd_reissue = record {
  name = codes "reissue";
  help = codes "renew (re-sign) expiring leaf certs in place using the on-disk CA";
  options =
      (opt kind_string (codes "crypto_config")
        (codes "path to the crypto-config tree (default: crypto-config)")
        ((codes "--crypto-config") ∷ []))
      ∷ (opt kind_string (codes "type")
          (codes "which leaf cert(s) to reissue: signcert, tls or both (default: both)")
          ((codes "--type") ∷ []))
      ∷ (repeated (codes "node")
          (codes
            "reissue the named node's certs (a short name like peer1 also matches). Repeatable.")
          (codes "NAME") ((codes "--node") ∷ (codes "--peer") ∷ []))
      ∷ (flag (codes "all_expired") true (codes "reissue every already-expired cert")
          ((codes "--all-expired") ∷ []))
      ∷ (flag (codes "all") true (codes "reissue every leaf cert") ((codes "--all") ∷ []))
      ∷ (opt kind_int (codes "days")
          (codes
            "positive validity in days from now, capped at the CA expiry (default: extend to the CA expiry)")
          ((codes "--days") ∷ []))
      ∷ (flag (codes "dry_run") true (codes "show what would change without writing")
          ((codes "--dry-run") ∷ []))
      ∷ (flag (codes "no_backup") true (codes "do not write .bak copies of replaced certs")
          ((codes "--no-backup") ∷ []))
      ∷ [];
  positionals = [];
}

abbrev pub commands : List Command
commands =
    cmd_generate ∷ cmd_extend ∷ cmd_up ∷ cmd_install ∷ cmd_invoke ∷ cmd_generatecc
    ∷ cmd_ansible_vars ∷ cmd_down ∷ cmd_cert_expires ∷ cmd_reissue ∷ []
