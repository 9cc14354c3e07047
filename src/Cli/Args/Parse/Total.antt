-- ===== src/Cli/Args/Parse/Total.antt =====
-- `parse` returns, and what an accepted command line says.
use fabric_network_builder.Prelude.{
  ◌≢◌, Option, none, some, List, [], ◌∷◌, arith, Bytes, Result, ok, err, ◌>>=◌,
}
use fabric_network_builder.Cli.Args.Options.{
  CliOption, Command, Values, ParseError, usage_error, help, fuel_spent, new_values,
}
use fabric_network_builder.Cli.Args.Reading.{read_options}
use fabric_network_builder.Cli.Args.Reading.Progress.{IsProper, read_options-IsProper}
use fabric_network_builder.Cli.Args.Parse.{
  find_command, bind_positionals, parse_command, parse_rest, parse, global_level, command_level,
}

>>=-IsProper {ℓ κ} :
    {A : Type ℓ} {B : Type κ} (m : Result ParseError A) (f : A → Result ParseError B)
    → IsProper m
    → ((a : A) → IsProper (f a))
    → IsProper (m >>= f)
>>=-IsProper (ok a) f h k = k a
>>=-IsProper (err (usage_error cmd message)) f h k = tt
>>=-IsProper (err (help cmd)) f h k = tt
>>=-IsProper (err fuel_spent) f h k = h

bind_positionals-IsProper :
    (cmd : Command) (r : List Bytes × Values) → IsProper (bind_positionals cmd r)
unfolding bind_positionals
bind_positionals-IsProper cmd (pos, v) = ground arith

parse_command-IsProper :
    (commands : List Command) (word : Bytes) (args : List Bytes) (v : Values) (cmd : Option Command)
    → IsProper (parse_command commands word args v cmd)
unfolding parse_command
parse_command-IsProper commands word args v none = tt
parse_command-IsProper commands word args v (some cmd) =
    >>=-IsProper (read_options (command_level cmd) args v) (bind_positionals cmd)
      (read_options-IsProper (command_level cmd) args v) (bind_positionals-IsProper cmd)

parse_rest-IsProper :
    (commands : List Command) (r : List Bytes × Values) → IsProper (parse_rest commands r)
unfolding parse_rest
parse_rest-IsProper commands ([], v) = tt
parse_rest-IsProper commands (word ∷ args, v) =
    parse_command-IsProper commands word args v (find_command commands word none)

IsProper-ne {ℓ} : {A : Type ℓ} (r : Result ParseError A) → IsProper r → r ≢ err fuel_spent
IsProper-ne (ok a) h e = cc
IsProper-ne (err (usage_error cmd message)) h e = cc
IsProper-ne (err (help cmd)) h e = cc
IsProper-ne (err fuel_spent) h e = h

-- Every command line is parsed to an invocation, a usage error or a request for help: the loops
-- over the words end.
pub parse-ne-fuel_spent :
    (globals : List CliOption) (commands : List Command) (args : List Bytes)
    → parse globals commands args ≢ err fuel_spent
unfolding parse
parse-ne-fuel_spent globals commands args = IsProper-ne _ (
    >>=-IsProper (read_options (global_level globals) args new_values) (parse_rest commands)
      (read_options-IsProper (global_level globals) args new_values) (parse_rest-IsProper commands))
