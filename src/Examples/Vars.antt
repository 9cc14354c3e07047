-- ===== src/Examples/Vars.antt =====
-- Runs of the parser of variables.sh and of the parser of peer names, and applications of their
-- theorems.
use fabric_network_builder.Prelude.{
  [], ◌∷◌, ◌++◌, none, some, Bytes, codes, ◌≡◌, refl, ok, err, pos, arith, bytes_eq, has_prefix,
  cut_prefix, cut,
}
use fabric_network_builder.Prelude.Spaces.{space_width, trim_left, trim_right, trim_space, fields}
use fabric_network_builder.Prelude.Decimal.{atoi, parse_ℕ, scan}
use fabric_network_builder.Vars.{Vars, peer_name}
use fabric_network_builder.Vars.Read.{
  read_vars, no_indices, bad_index, drop_cr, raw_lines, span_name, before_last, assignment,
  parse_ints, set_scalar, set_array, read_array, read_assignment, read_line, read_lines,
  with_orderer, check_vars,
}
use fabric_network_builder.Vars.Read.Complete.{IsComplete, read_vars-IsComplete}
use fabric_network_builder.Admin.Invoke.{parse_peer, span_digits, no_newline, peer_of}
use fabric_network_builder.Admin.Invoke.Names.{parse_peer-peer_name}

runs : Unit {0}
unfolding codes bytes_eq has_prefix cut_prefix cut atoi parse_ℕ scan space_width trim_left
    trim_right trim_space fields drop_cr raw_lines span_name before_last assignment parse_ints
    set_scalar set_array read_array read_assignment read_line read_lines with_orderer check_vars
    read_vars parse_peer span_digits no_newline peer_of
runs = tt

abbrev line : Bytes → Bytes → Bytes
line s rest = s ++ (10 ∷ rest)

abbrev file : Bytes
file = line (codes "#!/bin/bash") (
    line (codes "DOMAIN_NAME=\"a.b\"") (
      line (codes "ENDORSEMENT_POLICY=\"OR()\"")
        (line (codes "ORG_INDICES=(1 2)") (line (codes "PEER_INDICES=( 0 1 )") []))))

abbrev variables : Vars
variables = record {
  domain_name = codes "a.b";
  endorsement_policy = codes "OR()";
  org_indices = pos 1 ∷ pos 2 ∷ [];
  peer_indices = pos 0 ∷ pos 1 ∷ [];
  orderer_indices = pos 0 ∷ [];
}

reads : read_vars file ≡ ok variables
unfolding runs
reads = refl

reads_bad_index :
    read_vars (line (codes "ORG_INDICES=(1 x)") file)
    ≡ err (bad_index (codes "ORG_INDICES") (codes "x"))
unfolding runs
reads_bad_index = refl

reads_no_indices : read_vars (line (codes "DOMAIN_NAME=\"a.b\"") []) ≡ err no_indices
unfolding runs
reads_no_indices = refl

read_vars-IsComplete_example : IsComplete variables
read_vars-IsComplete_example = read_vars-IsComplete file variables reads

parses_no_index : parse_peer (codes "peer.org1") ≡ none
unfolding runs
parses_no_index = refl

parse_peer-peer_name_example :
    parse_peer (peer_name variables (pos 2) (pos 10)) ≡ some (record { org = pos 2; peer = pos 10 })
unfolding runs
parse_peer-peer_name_example =
    parse_peer-peer_name variables 2 10 b'a' (codes ".b") refl refl (omega arith) (omega arith)
