-- ===== src/Cli/Args/Parse/RoundTrip.antt =====
-- Whole command lines, written and read back.
use fabric_network_builder.Prelude.{
  ◌≡◌, ◌≢◌, refl, false, Option, none, some, List, [], ◌∷◌, ◌++◌, arith, length, All, Bytes,
  bytes_eq_iff, ok, ◌>>=◌, ap, ◌∙◌,
}
use fabric_network_builder.Cli.Args.Options.{CliOption, Command, Values, new_values}
use fabric_network_builder.Cli.Args.Lookup.{dashes}
use fabric_network_builder.Cli.Args.Reading.{is_option, read_options}
use fabric_network_builder.Cli.Args.Reading.RoundTrip.{
  Setting, all_words, IsReadable, effects, read_options-words, read_options-globals,
}
use fabric_network_builder.Cli.Args.Parse.{
  find_command, name_positionals, bind_positionals, parse_command, parse_rest, parse, global_level,
  command_level,
}

-- The command that a word names: the last of the list with that name.
pub record IsNamed (commands : List Command) (word : Bytes) (cmd : Command) : Type 0 where
  pub before : List Command
  pub after : List Command
  pub split : commands ≡ before ++ (cmd ∷ after)
  pub named : cmd.name ≡ word
  pub fresh : All (λ c. c.name ≢ word) after

find_command_fresh :
    (after : List Command) (word : Bytes) (found : Option Command)
    → All (λ c. c.name ≢ word) after
    → find_command after word found ≡ found
unfolding find_command
find_command_fresh [] word found h = refl
find_command_fresh (c ∷ after) word found (hc, h) =
    rw (find_command_fresh after word _ h) (ground (arith, bytes_eq_iff c.name word))

find_command_split :
    (before after : List Command) (cmd : Command) (word : Bytes) (found : Option Command)
    → cmd.name ≡ word
    → All (λ c. c.name ≢ word) after
    → find_command (before ++ (cmd ∷ after)) word found ≡ some cmd
unfolding find_command
find_command_split [] after cmd word found e h =
    rw (find_command_fresh after word _ h) (ground (arith, bytes_eq_iff cmd.name word))
find_command_split (c ∷ before) after cmd word found e h =
    find_command_split before after cmd word _ e h

pub find_command-IsNamed :
    (commands : List Command) (word : Bytes) (cmd : Command)
    → IsNamed commands word cmd
    → find_command commands word none ≡ some cmd
find_command-IsNamed commands word cmd n =
    ap (λ cs. find_command cs word none) n.split
    ∙ find_command_split n.before n.after cmd word none n.named n.fresh

bind_positionals_fit :
    (cmd : Command) (ps : List Bytes) (v : Values)
    → length ps ≡ length cmd.positionals
    → bind_positionals cmd (ps, v)
      ≡ ok (record { cmd = cmd; pos = name_positionals cmd.positionals ps []; v = v })
unfolding bind_positionals
bind_positionals_fit cmd ps v e = ground arith

parse_rest_command :
    (commands : List Command) (word : Bytes) (args : List Bytes) (v : Values) (cmd : Command)
    → IsNamed commands word cmd
    → parse_rest commands (word ∷ args, v)
      ≡ (read_options (command_level cmd) args v >>= bind_positionals cmd)
unfolding parse_rest parse_command
parse_rest_command commands word args v cmd n =
    ap (parse_command commands word args v) (find_command-IsNamed commands word cmd n)

-- A command line that sets global options, names a command, sets options of it and gives as many
-- positionals as it has, behind `--`, is parsed to that command with these positionals and the
-- effects of all settings.
pub parse-words :
    (globals : List CliOption) (commands : List Command) (gs hs : List Setting) (word : Bytes)
    (cmd : Command) (ps : List Bytes) (u v : Values)
    → is_option word ≡ false
    → IsNamed commands word cmd
    → IsReadable (global_level globals) gs (word ∷ (all_words hs ++ (dashes ∷ ps)))
    → effects (global_level globals) gs new_values ≡ ok u
    → IsReadable (command_level cmd) hs (dashes ∷ ps)
    → effects (command_level cmd) hs u ≡ ok v
    → length ps ≡ length cmd.positionals
    → parse globals commands (all_words gs ++ (word ∷ (all_words hs ++ (dashes ∷ ps))))
      ≡ ok (record { cmd = cmd; pos = name_positionals cmd.positionals ps []; v = v })
unfolding parse
parse-words globals commands gs hs word cmd ps u v plain named r e r' e' n =
    let args : List Bytes = all_words hs ++ (dashes ∷ ps) in
    ap (λ m. m >>= parse_rest commands)
      (read_options-globals (global_level globals) gs word args new_values u refl plain r e)
    ∙ parse_rest_command commands word args u cmd named
    ∙ ap (λ m. m >>= bind_positionals cmd)
        (read_options-words (command_level cmd) hs ps u v refl r' e')
    ∙ bind_positionals_fit cmd ps v n
