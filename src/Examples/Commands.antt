-- ===== src/Examples/Commands.antt =====
-- Runs of the prompt, of --chown and of the image overrides, and applications of their theorems.
use fabric_network_builder.Prelude.{
  List, [], ◌∷◌, ◌++◌, map, false, Option, none, some, Bytes, codes, bytes_eq, contains, cut,
  has_prefix, ◌≡◌, ◌↔◌, refl, pos, negsuc, Result, ok, err, arith,
}
use fabric_network_builder.Prelude.Dict
use fabric_network_builder.Prelude.Decimal.{print_ℕ, atoi, parse_ℕ, scan}
use fabric_network_builder.Prelude.Spaces.{space_width, trim_left, trim_right, trim_space, fields}
use fabric_network_builder.Vars.Read.{raw_lines}
use fabric_network_builder.Cli.Prompt.{
  answered, at_end, ask_rest, ask_proceed, continue_prompt, proceeding, invalid_response,
}
use fabric_network_builder.Cli.Prompt.Answer.{decided, first_decision, ask_proceed-decision}
use fabric_network_builder.Cli.Owner.{
  Owner, Accounts, unknown_user, user_part, group_part, parse_chown,
}
use fabric_network_builder.Cli.Owner.Numbers.{parse_chown-print_ℕ}
use fabric_network_builder.Cli.Args.Options.{new_values, str, integer, boolean, ParseError}
use fabric_network_builder.Cli.Args.Parse.{Invocation}
use fabric_network_builder.Cli.Spec.{cmd_down}
use fabric_network_builder.Topology.Options.{default_options}
use fabric_network_builder.Cli.Commands.{
  topology_options, compose_files, missing_args, named_args, chaincode_args, add_override,
  parse_override, parse_pairs, parse_image_overrides, unknown_name, ccaas_services, CommandError,
  exit_code,
}
use fabric_network_builder.Cli.Commands.Overrides.{written, Taken, parse_image_overrides-Taken}
use fabric_network_builder.Cli.Commands.Exit.{Succeeds, exit_code_iff}

runs : Unit {0}
unfolding codes bytes_eq contains has_prefix cut Dict.lookup Dict.insert Dict.get_or atoi parse_ℕ
    scan space_width trim_left trim_right trim_space fields raw_lines answered at_end ask_rest
    ask_proceed first_decision user_part group_part parse_chown str integer boolean topology_options
    compose_files missing_args named_args chaincode_args add_override parse_override parse_pairs
    parse_image_overrides ccaas_services exit_code
runs = tt

-- An answer that is none, and then yes.
abbrev input : Bytes
input = b'm' ∷ 10 ∷ b' ' ∷ b'y' ∷ []

asks :
    ask_proceed false input
    ≡ (ok tt, continue_prompt ∷ invalid_response ∷ continue_prompt ∷ proceeding ∷ [])
unfolding runs
asks = refl

ask_proceed-decision_example :
    (ask_proceed false input).0 ≡ decided (first_decision (raw_lines input))
ask_proceed-decision_example = ask_proceed-decision input

abbrev accounts : Accounts
accounts = record { lookup_user = λ u. none; lookup_group = λ g. none }

reads_user : parse_chown accounts (codes "7") ≡ ok (some (record { uid = pos 7; gid = negsuc 0 }))
unfolding runs
reads_user = refl

unknown : parse_chown accounts (codes "me:1") ≡ err (unknown_user (codes "me"))
unfolding runs
unknown = refl

parse_chown-print_ℕ_example :
    parse_chown accounts (print_ℕ 1000 ++ (b':' ∷ print_ℕ 50))
    ≡ ok (some (record { uid = pos 1000; gid = pos 50 }))
parse_chown-print_ℕ_example = parse_chown-print_ℕ accounts 1000 50 (omega arith) (omega arith)

defaults : topology_options new_values ≡ default_options
unfolding runs
defaults = refl

abbrev pairs : List (Bytes × Bytes)
pairs = (codes "a", codes "img:1") ∷ (codes "b", codes "x=y") ∷ []

abbrev names : List Bytes
names = codes "b" ∷ codes "a" ∷ []

unknown_override :
    parse_image_overrides (codes "c=img" ∷ []) names ≡ err (unknown_name (codes "c") names)
unfolding runs
unknown_override = refl

parse_image_overrides-Taken_example : Taken (parse_image_overrides (map written pairs) names) pairs
unfolding runs
parse_image_overrides-Taken_example =
    parse_image_overrides-Taken names pairs
      (
        (refl, refl, ((λ e. ground arith), tt), refl),
        ((refl, refl, ((λ e. ground arith), tt), refl), tt),
      )
      (((λ e. ground arith), tt), (tt, tt))

abbrev stopping : Result ParseError Invocation
stopping = ok (record { cmd = cmd_down; pos = []; v = new_values })

abbrev succeeding : Invocation → Option Owner → Result CommandError (Unit {0})
succeeding inv o = ok tt

exit_code_iff_example :
    (exit_code (parse_chown accounts) succeeding stopping ≡ 0)
    ↔ Succeeds (parse_chown accounts) succeeding stopping
exit_code_iff_example = exit_code_iff (parse_chown accounts) succeeding stopping
