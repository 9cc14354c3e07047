-- ===== src/Cli/Args/Reading.antt =====
-- internal/cli/args.go: `isOption` and `readOptions`, the reading of one level of options. A round of
-- the loop is `round`, and `read_loop` runs the rounds on fuel.
pub mod Progress
pub mod Forms
pub mod Vals
pub mod RoundTrip
use fabric_network_builder.Prelude.{
  ℕ, zero, suc, ◌+◌, Bool, true, false, not, ◌&&◌, ◌||◌, Option, none, some, List, [], ◌∷◌, ◌++◌,
  ltb, ◌==◌, if◌then◌else◌, length, take, drop, Bytes, bytes_eq, has_prefix, cut, ℤ, Result, ok,
  err,
}
use fabric_network_builder.Prelude.Dict
use fabric_network_builder.Prelude.Dict.{Dict}
use fabric_network_builder.Prelude.Decimal.{is_digit, atoi}
use fabric_network_builder.Cli.Args.Options.{
  Kind, kind_bool, kind_string, kind_int, kind_list, kind_append, CliOption, Command, Values,
  ignored_explicit_argument, expected_at_least_one_argument, expected_one_argument,
  invalid_int_value, ParseError, usage_error, help, fuel_spent,
}
use fabric_network_builder.Cli.Args.Lookup.{dashes, lookup}

-- The regular expression `negativeNumber`: `-\d+` or `-\d*\.\d+`.
all_digits : Bytes → Bool
all_digits [] = true
all_digits (c ∷ s) = is_digit c && all_digits s

some_digits : Bytes → Bool
some_digits [] = false
some_digits (c ∷ s) = is_digit c && all_digits s

fraction : Bytes → Bool
fraction [] = false
fraction (c ∷ s) = if c == b'.' then some_digits s else is_digit c && fraction s

unfoldable pub negative_number : Bytes → Bool
unfolding all_digits some_digits fraction
negative_number [] = false
negative_number (c ∷ s) = c == b'-' && (some_digits s || fraction s)

unfoldable pub is_option : Bytes → Bool
is_option tok = ltb 1 (length tok) && (has_prefix tok (b'-' ∷ []) && not (negative_number tok))

pub record Level : Type 0 where
  pub cmd : Option Command
  pub opts : List CliOption
  pub stop_at_positional : Bool

-- The variables of the loop of `readOptions`; `rest` is args[i:], whose first word may be what is
-- left of a bundle of short flags.
pub record Reading : Type 0 where
  pub rest : List Bytes
  pub pos : List Bytes
  pub only_positionals : Bool
  pub v : Values

-- One round goes on, or the function returns.
pub data Step : Type 0 where
  next : Reading → Step
  stop : Result ParseError (List Bytes × Values) → Step

-- `name`, and `inline` if `hasInline`.
unfoldable pub split_token : Bytes → Bytes × Option Bytes
split_token tok =
    if has_prefix tok dashes
    then cut b'=' tok
    else if ltb 2 (length tok)
    then (take 2 tok, some (drop 2 tok))
    else (tok, none)

-- o.names[0]. Every option of the builder has a name.
abbrev pub first : List Bytes → Bytes
first [] = []
first (n ∷ names) = n

abbrev pub display : CliOption → Bytes
display o = first o.names

abbrev pub set_bool : CliOption → Values → Values
set_bool o v = record v { bools = Dict.insert o.dest o.value v.bools }

-- A bool option.
unfoldable pub read_bool : Level → CliOption → Bytes → Option Bytes → List Bytes → Reading → Step
read_bool l o tok none more s = next (record s { rest = more; v = set_bool o s.v })
read_bool l o tok (some inline) more s =
    if has_prefix tok dashes
    then stop (err (usage_error l.cmd (ignored_explicit_argument (display o) inline)))
    else next (record s { rest = (b'-' ∷ inline) ∷ more; v = set_bool o s.v })

-- The words before the next option, and what follows them.
abbrev pub and_word : Bytes → List Bytes × List Bytes → List Bytes × List Bytes
and_word w (words, more) = (w ∷ words, more)

unfoldable pub words_of_list : List Bytes → List Bytes × List Bytes
words_of_list [] = ([], [])
words_of_list (w ∷ more) =
    let rest = and_word w (words_of_list more) in if is_option w then ([], w ∷ more) else rest

unfoldable pub word_of_one : List Bytes → List Bytes × List Bytes
word_of_one [] = ([], [])
word_of_one (w ∷ more) = if is_option w then ([], w ∷ more) else (w ∷ [], more)

-- `vals`, and the words behind them.
unfoldable pub take_values : Kind → Option Bytes → List Bytes → List Bytes × List Bytes
take_values k (some inline) more = (inline ∷ [], more)
take_values kind_list none more = words_of_list more
take_values k none more = word_of_one more

abbrev pub invalid_int : Level → CliOption → Bytes → ParseError
invalid_int l o val = usage_error l.cmd (invalid_int_value (display o) val)

unfoldable pub set_int : Level → CliOption → Bytes → Values → Option ℤ → Result ParseError Values
set_int l o val v none = err (invalid_int l o val)
set_int l o val v (some n) = ok (record v { ints = Dict.insert o.dest n v.ints })

-- The values of an option that takes some are stored under its dest.
unfoldable pub store : Level → CliOption → Kind → List Bytes → Values → Result ParseError Values
unfolding set_int
store l o kind_list [] v = err (usage_error l.cmd (expected_at_least_one_argument (display o)))
store l o k [] v = err (usage_error l.cmd (expected_one_argument (display o)))
store l o kind_bool (val ∷ vals) v = ok v
store l o kind_string (val ∷ vals) v = ok (record v { strings = Dict.insert o.dest val v.strings })
store l o kind_int (val ∷ vals) v = set_int l o val v (atoi val)
store l o kind_list (val ∷ vals) v =
    ok (record v { lists = Dict.insert o.dest (val ∷ vals) v.lists })
store l o kind_append (val ∷ vals) v =
    ok (record v {
      lists = Dict.insert o.dest (Dict.get_or o.dest v.lists [] ++ (val ∷ [])) v.lists;
    })

abbrev pub stored : List Bytes → Reading → Result ParseError Values → Step
stored more s (err e) = stop (err e)
stored more s (ok v) = next (record s { rest = more; v = v })

unfoldable pub read_value : Level → CliOption → Option Bytes → List Bytes → Reading → Step
read_value l o inline more s =
    let (vals, more') = take_values o.kind inline more in stored more' s (store l o o.kind vals s.v)

-- The branch on `o.kind == kindBool`.
unfoldable pub read_by_kind :
    Level → Kind → CliOption → Bytes → Option Bytes → List Bytes → Reading → Step
read_by_kind l kind_bool o tok inline more s = read_bool l o tok inline more s
read_by_kind l k o tok inline more s = read_value l o inline more s

abbrev pub read_found :
    Level → Bytes → Option Bytes → List Bytes → Reading → Result ParseError CliOption → Step
read_found l tok inline more s (err e) = stop (err e)
read_found l tok inline more s (ok o) = read_by_kind l o.kind o tok inline more s

unfoldable pub read_option : Level → Bytes → List Bytes → Reading → Step
read_option l tok more s =
    let (name, inline) = split_token tok in
    read_found l tok inline more s (lookup l.cmd l.opts name)

abbrev pub short_help : Bytes
short_help = b'-' ∷ b'h' ∷ []

abbrev pub long_help : Bytes
long_help = b'-' ∷ b'-' ∷ b'h' ∷ b'e' ∷ b'l' ∷ b'p' ∷ []

-- The body of the loop at the word `tok`.
unfoldable pub read_word : Level → Bytes → List Bytes → Reading → Step
read_word l tok more s =
    if s.only_positionals || not (is_option tok)
    then (if l.stop_at_positional
        then stop (ok (tok ∷ more, s.v))
        else next (record s { rest = more; pos = s.pos ++ (tok ∷ []) }))
    else if bytes_eq tok dashes
    then next (record s { rest = more; only_positionals = true })
    else if bytes_eq tok short_help || bytes_eq tok long_help
    then stop (err (help l.cmd))
    else read_option l tok more s

abbrev pub round_on : Level → List Bytes → Reading → Step
round_on l [] s = stop (ok (s.pos, s.v))
round_on l (tok ∷ more) s = read_word l tok more s

unfoldable pub round : Level → Reading → Step
round l s = round_on l s.rest s

unfoldable pub read_loop : Level → ℕ → Reading → Result ParseError (List Bytes × Values)
read_loop l zero s = err fuel_spent
read_loop l (suc fuel) s = elim (round l s) [ stop r ↦ r | next s' ↦ read_loop l fuel s' ]

-- The bytes of the words, each with one more: a round uses up at least one.
unfoldable pub size : List Bytes → ℕ
size [] = 0
size (w ∷ ws) = length w + 1 + size ws

-- The loop from a state, with fuel for every byte and word that is left.
unfoldable pub run : Level → Reading → Result ParseError (List Bytes × Values)
unfolding read_loop
run l s = read_loop l (size s.rest + 1) s

abbrev pub start : List Bytes → Values → Reading
start args v = record { rest = args; pos = []; only_positionals = false; v = v }

unfoldable pub read_options : Level → List Bytes → Values → Result ParseError (List Bytes × Values)
read_options l args v = run l (start args v)
