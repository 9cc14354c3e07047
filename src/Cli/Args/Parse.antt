-- ===== src/Cli/Args/Parse.antt =====
-- internal/cli/args.go: `parse`, the global options, the command and its options.
pub mod RoundTrip
pub mod Total
use fabric_network_builder.Prelude.{
  true, false, Option, none, some, List, [], ◌∷◌, map, ltb, if◌then◌else◌, length, drop, Bytes,
  codes, bytes_eq, Result, ok, err, ◌>>=◌,
}
use fabric_network_builder.Prelude.Dict
use fabric_network_builder.Prelude.Dict.{Dict}
use fabric_network_builder.Cli.Args.Options.{
  CliOption, Positional, Command, Values, new_values, unrecognized_arguments, required_arguments,
  invalid_choice, ParseError, usage_error,
}
use fabric_network_builder.Cli.Args.Reading.{Level, read_options}

pub record Invocation : Type 0 where
  pub cmd : Command
  pub pos : Dict Bytes
  pub v : Values

-- The loop over the commands keeps the last one with the name.
unfoldable pub find_command : List Command → Bytes → Option Command → Option Command
find_command [] name cmd = cmd
find_command (c ∷ commands) name cmd =
    find_command commands name (if bytes_eq c.name name then some c else cmd)

-- `named[p.dest] = pos[i]`, where the counts have been compared.
unfoldable pub name_positionals : List Positional → List Bytes → Dict Bytes → Dict Bytes
name_positionals (p ∷ ps) (w ∷ ws) named = name_positionals ps ws (Dict.insert p.dest w named)
name_positionals ps ws named = named

abbrev dests : List Positional → List Bytes
dests = map (λ p. p.dest)

unfoldable pub command_names : List Command → List Bytes
command_names = map (λ c. c.name)

-- The checks on the number of positionals.
unfoldable pub bind_positionals : Command → List Bytes × Values → Result ParseError Invocation
unfolding name_positionals
bind_positionals cmd (pos, v) =
    if ltb (length pos) (length cmd.positionals)
    then err
        (usage_error (some cmd) (required_arguments (dests (drop (length pos) cmd.positionals))))
    else if ltb (length cmd.positionals) (length pos)
    then err (usage_error (some cmd) (unrecognized_arguments (drop (length cmd.positionals) pos)))
    else ok (record { cmd = cmd; pos = name_positionals cmd.positionals pos []; v = v })

abbrev pub global_level : List CliOption → Level
global_level globals = record { cmd = none; opts = globals; stop_at_positional = true }

abbrev pub command_level : Command → Level
command_level cmd = record { cmd = some cmd; opts = cmd.options; stop_at_positional = false }

unfoldable pub parse_command :
    List Command → Bytes → List Bytes → Values → Option Command → Result ParseError Invocation
unfolding bind_positionals command_names
parse_command commands word args v none =
    err (usage_error none (invalid_choice word (command_names commands)))
parse_command commands word args v (some cmd) =
    read_options (command_level cmd) args v >>= bind_positionals cmd

-- What `parse` does with the words from the command's on.
unfoldable pub parse_rest : List Command → List Bytes × Values → Result ParseError Invocation
unfolding parse_command find_command
parse_rest commands ([], v) = err (usage_error none (required_arguments (codes "command" ∷ [])))
parse_rest commands (word ∷ args, v) =
    parse_command commands word args v (find_command commands word none)

unfoldable pub parse : List CliOption → List Command → List Bytes → Result ParseError Invocation
unfolding parse_rest
parse globals commands args =
    read_options (global_level globals) args new_values >>= parse_rest commands
