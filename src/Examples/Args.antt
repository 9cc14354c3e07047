-- ===== src/Examples/Args.antt =====
-- The parser on command lines of the builder.
use fabric_network_builder.Prelude.{
  ◌≡◌, ◌≢◌, ◌↔◌, refl, arith, true, none, some, List, [], ◌∷◌, Bytes, codes, bytes_eq, has_prefix,
  cut, pos, ok, err,
}
use fabric_network_builder.Prelude.Dict
use fabric_network_builder.Prelude.Decimal.{atoi, parse_ℕ}
use fabric_network_builder.Cli.Spec.{
  globals, commands, cmd_generate, cmd_extend, cmd_up, cmd_install, cmd_invoke, cmd_generatecc,
  cmd_ansible_vars, cmd_down, cmd_cert_expires, cmd_reissue, opt, flag,
}
use fabric_network_builder.Cli.Args.Options.{
  CliOption, Values, new_values, kind_string, kind_int, kind_list, usage_error, ambiguous_option,
  fuel_spent,
}
use fabric_network_builder.Cli.Args.Lookup.{
  lookup, dashes, exact, has_name, long_match, prefix_matches, pick, sort_names,
}
use fabric_network_builder.Cli.Args.Lookup.Choice.{Denotes, lookup_iff}
use fabric_network_builder.Cli.Args.Reading.{
  read_options, is_option, negative_number, run, round, read_word, read_option, split_token,
  read_by_kind, read_bool, read_value, take_values, words_of_list, word_of_one, store, size,
}
use fabric_network_builder.Cli.Args.Reading.RoundTrip.{
  separate, attached, several, Setting, read_options-words, read_options-globals,
}
use fabric_network_builder.Cli.Args.Reading.RoundTrip
use fabric_network_builder.Cli.Args.Parse.{parse, global_level, command_level}
use fabric_network_builder.Cli.Args.Parse.Total.{parse-ne-fuel_spent}
use fabric_network_builder.Cli.Args.Parse.RoundTrip.{IsNamed, parse-words}

runs : Unit {0}
unfolding codes bytes_eq has_prefix cut Dict.lookup Dict.insert Dict.get_or atoi parse_ℕ lookup
    exact has_name long_match prefix_matches pick sort_names read_options run round read_word
    read_option split_token read_by_kind read_bool read_value take_values words_of_list word_of_one
    store size is_option negative_number parse
runs = tt

abbrev line : List Bytes
line = codes "-fs" ∷ codes "couchdb" ∷ codes "generate" ∷ codes "--org-count=3" ∷ []

couch :
    parse globals commands line
    ≡ ok (record {
      cmd = cmd_generate;
      pos = [];
      v = record {
        bools = (codes "force", true) ∷ [];
        strings = (codes "storage", codes "couchdb") ∷ [];
        ints = (codes "org_count", pos 3) ∷ [];
        lists = [];
      };
    })
unfolding runs
couch = refl

abbrev channel_option : CliOption
channel_option =
    opt kind_string (codes "channel") (codes "the channel used on the network (default: luther)")
      (codes "--channel" ∷ [])

abbrev force_option : CliOption
force_option =
    flag (codes "force") true (codes "force the operation without confirmation")
      (codes "--force" ∷ codes "-f" ∷ [])

abbrev org_count_option : CliOption
org_count_option =
    opt kind_int (codes "org_count") (codes "number of organizations (default: 2)")
      (codes "--org-count" ∷ [])

abbrev san_option : CliOption
san_option =
    opt kind_list (codes "orderer_san_domains")
      (codes "domain suffixes to add to SAN field of orderer certificates")
      (codes "--orderer-san-domains" ∷ [])

abbrev global_settings : List Setting
global_settings =
    RoundTrip.flag (codes "--force") force_option
    ∷ separate (codes "--chan") channel_option (codes "c1")
    ∷ []

abbrev generate_settings : List Setting
generate_settings =
    several (codes "--orderer-san") san_option (codes "a.b") (codes "c.d" ∷ [])
    ∷ attached (codes "--org-count") org_count_option (codes "3")
    ∷ []

abbrev global_values : Values
global_values = record {
  bools = (codes "force", true) ∷ [];
  strings = (codes "channel", codes "c1") ∷ [];
  ints = [];
  lists = [];
}

abbrev generate_values : Values
generate_values = record global_values {
  ints = (codes "org_count", pos 3) ∷ [];
  lists = (codes "orderer_san_domains", codes "a.b" ∷ codes "c.d" ∷ []) ∷ [];
}

ambiguous :
    lookup (some cmd_generate) cmd_generate.options (codes "--or")
    ≡ err (
        usage_error (some cmd_generate) (
          ambiguous_option (codes "--or") (
            codes "--orderer-count"
            ∷ codes "--orderer-san-domains"
            ∷ codes "--orderer-type"
            ∷ codes "--org-count"
            ∷ [])))
unfolding runs
ambiguous = refl

parse-ne-fuel_spent_example : parse globals commands line ≢ err fuel_spent
parse-ne-fuel_spent_example = parse-ne-fuel_spent globals commands line

lookup_iff_example :
    (lookup none globals (codes "--chan") ≡ ok channel_option)
    ↔ Denotes globals (codes "--chan") channel_option
lookup_iff_example = lookup_iff none globals (codes "--chan") channel_option

read_options-words_example :
    read_options
      (command_level cmd_generate)
      (codes "--orderer-san"
        ∷ codes "a.b"
        ∷ codes "c.d"
        ∷ codes "--org-count=3"
        ∷ dashes
        ∷ codes "-x"
        ∷ [])
      global_values
    ≡ ok (codes "-x" ∷ [], generate_values)
unfolding runs
read_options-words_example =
    read_options-words (command_level cmd_generate) generate_settings (codes "-x" ∷ [])
      global_values generate_values refl (ground arith) refl

read_options-globals_example :
    read_options
      (global_level globals)
      (codes "--force" ∷ codes "--chan" ∷ codes "c1" ∷ codes "generate" ∷ codes "-x" ∷ [])
      new_values
    ≡ ok (codes "generate" ∷ codes "-x" ∷ [], global_values)
unfolding runs
read_options-globals_example =
    read_options-globals (global_level globals) global_settings (codes "generate") (codes "-x" ∷ [])
      new_values global_values refl refl (ground arith) refl

abbrev invoke_words : List Bytes
invoke_words = codes "mycc" ∷ codes "{}" ∷ []

invoke-IsNamed : IsNamed commands (codes "invoke") cmd_invoke
unfolding codes
invoke-IsNamed = record {
  before = cmd_generate ∷ cmd_extend ∷ cmd_up ∷ cmd_install ∷ [];
  after = cmd_generatecc ∷ cmd_ansible_vars ∷ cmd_down ∷ cmd_cert_expires ∷ cmd_reissue ∷ [];
  split = refl;
  named = refl;
  fresh = ground arith;
}

parse-words_example :
    parse globals commands
      (codes "--force" ∷ codes "--chan" ∷ codes "c1" ∷ codes "invoke" ∷ dashes ∷ invoke_words)
    ≡ ok (record {
      cmd = cmd_invoke;
      pos = (codes "cc_name", codes "mycc") ∷ (codes "ctor", codes "{}") ∷ [];
      v = global_values;
    })
unfolding runs
parse-words_example =
    parse-words globals commands global_settings [] (codes "invoke") cmd_invoke invoke_words
      global_values global_values refl invoke-IsNamed (ground arith) refl tt refl refl
