-- ===== src/Cli/Args/Lookup.antt =====
-- internal/cli/args.go: `lookup`, the search for the option that a token names.
pub mod Choice
use fabric_network_builder.Prelude.{
  Bool, true, false, not, ◌&&◌, ◌||◌, Option, none, some, List, [], ◌∷◌, map, ltb, ◌==◌,
  if◌then◌else◌, Bytes, bytes_eq, has_prefix, Result, ok, err,
}
use fabric_network_builder.Prelude.Sort.{bytes_leb}
use fabric_network_builder.Cli.Args.Options.{
  CliOption, Command, unrecognized_arguments, ambiguous_option, ParseError, usage_error,
}

-- `lookup`: the first loop, over exact names.
unfoldable pub has_name : List Bytes → Bytes → Bool
has_name [] name = false
has_name (n ∷ names) name = bytes_eq n name || has_name names name

unfoldable pub exact : List CliOption → Bytes → Option CliOption
exact [] name = none
exact (o ∷ opts) name = if has_name o.names name then some o else exact opts name

abbrev pub dashes : Bytes
dashes = b'-' ∷ b'-' ∷ []

-- The first long name of an option that begins with `name`.
unfoldable pub long_match : List Bytes → Bytes → Option Bytes
long_match [] name = none
long_match (n ∷ names) name =
    if has_prefix n dashes && has_prefix n name then some n else long_match names name

-- `matches` and `names` of the second loop, as pairs.
abbrev pub matched : CliOption → Option Bytes → List (CliOption × Bytes) → List (CliOption × Bytes)
matched o none rest = rest
matched o (some n) rest = (o, n) ∷ rest

unfoldable pub prefix_matches : List CliOption → Bytes → List (CliOption × Bytes)
prefix_matches [] name = []
prefix_matches (o ∷ opts) name = matched o (long_match o.names name) (prefix_matches opts name)

-- `sort.Strings`, as an insertion sort by byte order.
unfoldable pub insert_name : Bytes → List Bytes → List Bytes
insert_name n [] = n ∷ []
insert_name n (m ∷ names) = if bytes_leb n m then n ∷ m ∷ names else m ∷ insert_name n names

unfoldable pub sort_names : List Bytes → List Bytes
unfolding bytes_leb insert_name
sort_names [] = []
sort_names (n ∷ names) = insert_name n (sort_names names)

abbrev pub name_of : CliOption × Bytes → Bytes
name_of (o, n) = n

unfoldable pub pick :
    Option Command → Bytes → List (CliOption × Bytes) → Result ParseError CliOption
unfolding sort_names
pick cmd name [] = err (usage_error cmd (unrecognized_arguments (name ∷ [])))
pick cmd name ((o, n) ∷ []) = ok o
pick cmd name (m ∷ m' ∷ ms) =
    err (usage_error cmd (ambiguous_option name (sort_names (map name_of (m ∷ m' ∷ ms)))))

abbrev pub by_prefix :
    Option Command → List CliOption → Bytes → Option CliOption → Result ParseError CliOption
by_prefix cmd opts name (some o) = ok o
by_prefix cmd opts name none =
    if not (has_prefix name dashes)
    then err (usage_error cmd (unrecognized_arguments (name ∷ [])))
    else pick cmd name (prefix_matches opts name)

unfoldable pub lookup : Option Command → List CliOption → Bytes → Result ParseError CliOption
lookup cmd opts name = by_prefix cmd opts name (exact opts name)
