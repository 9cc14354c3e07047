-- ===== src/Cli/Args/Options.antt =====
-- internal/cli/args.go: the types of options and commands, the values that a parse collects and its
-- errors. A string is a list of bytes; an error is a constructor that carries what its text prints.
use fabric_network_builder.Prelude.{Bool, true, false, ◌||◌, Option, none, some, List, [], Bytes, ℤ}
use fabric_network_builder.Prelude.Dict
use fabric_network_builder.Prelude.Dict.{Dict}

pub data Kind : Type 0 where
  kind_bool kind_string kind_int kind_list kind_append : Kind

-- The struct `option`. `value` is what a bool option stores.
pub record CliOption : Type 0 where
  pub dest : Bytes
  pub help : Bytes
  pub meta : Bytes
  pub names : List Bytes
  pub kind : Kind
  pub value : Bool

pub record Positional : Type 0 where
  pub dest : Bytes
  pub help : Bytes

pub record Command : Type 0 where
  pub name : Bytes
  pub help : Bytes
  pub options : List CliOption
  pub positionals : List Positional

pub record Values : Type 0 where
  pub bools : Dict Bool
  pub strings : Dict Bytes
  pub ints : Dict ℤ
  pub lists : Dict (List Bytes)

abbrev pub new_values : Values
new_values = record { bools = []; strings = []; ints = []; lists = [] }

abbrev is_some {ℓ} : {A : Type ℓ} → Option A → Bool
is_some none = false
is_some (some a) = true

unfoldable pub has : Values → Bytes → Bool
unfolding Dict.lookup
has v dest =
    is_some (Dict.lookup dest v.bools)
    || (is_some (Dict.lookup dest v.strings)
        || (is_some (Dict.lookup dest v.ints) || is_some (Dict.lookup dest v.lists)))

unfoldable pub str : Values → Bytes → Bytes → Bytes
str v dest def = Dict.get_or dest v.strings def

unfoldable pub integer : Values → Bytes → ℤ → ℤ
integer v dest def = Dict.get_or dest v.ints def

unfoldable pub boolean : Values → Bytes → Bool → Bool
boolean v dest def = Dict.get_or dest v.bools def

-- The messages of `usagef`. In `invalid_choice` the list is the names of the commands.
pub data Message : Type 0 where
  unrecognized_arguments : List Bytes → Message
  ambiguous_option : Bytes → List Bytes → Message
  ignored_explicit_argument : Bytes → Bytes → Message
  expected_at_least_one_argument : Bytes → Message
  expected_one_argument : Bytes → Message
  invalid_int_value : Bytes → Bytes → Message
  required_arguments : List Bytes → Message
  invalid_choice : Bytes → List Bytes → Message

-- `usageError` and `errHelp`; no command is Go's nil. The loop of `read_options` runs on fuel, and
-- `fuel_spent` stands for a loop that did not end.
pub data ParseError : Type 0 where
  usage_error : Option Command → Message → ParseError
  help : Option Command → ParseError
  fuel_spent : ParseError
