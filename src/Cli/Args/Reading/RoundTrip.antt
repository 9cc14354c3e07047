-- ===== src/Cli/Args/Reading/RoundTrip.antt =====
-- Options written as words are read back by `readOptions`.
use fabric_network_builder.Prelude.{
  ◌≡◌, refl, true, false, none, some, List, [], ◌∷◌, ◌++◌, append_assoc, append-nil, arith, All,
  Bytes, has_prefix, bytes_eq_refl, Result, ok, ◌>>=◌, >>=-eq-ok, ◌∙◌, ap,
}
use fabric_network_builder.Cli.Args.Options.{
  Kind, kind_bool, kind_list, CliOption, Values, ParseError,
}
use fabric_network_builder.Cli.Args.Lookup.{dashes, lookup}
use fabric_network_builder.Cli.Args.Reading.{
  Level, Reading, next, read_bool, set_bool, take_values, store, stored, read_by_kind, read_word,
  round, is_option, run, read_options,
}
use fabric_network_builder.Cli.Args.Reading.Progress.{run_next, run_stop}
use fabric_network_builder.Cli.Args.Reading.Forms.{
  IsLongName, at_words, round_alone, round_inline, is_option_long,
}
use fabric_network_builder.Cli.Args.Reading.Vals.{
  IsBool, TakesOne, TakesOne-ne-IsBool, EndsList, read_by_kind_values, take_values_inline,
  take_values_one, words_of_list_ends,
}

-- The ways to set an option by a long name: `--opt`, `--opt value`, `--opt=value` and, for a list
-- option, `--opt value value...`.
pub data Setting : Type 0 where
  flag : Bytes → CliOption → Setting
  separate : Bytes → CliOption → Bytes → Setting
  attached : Bytes → CliOption → Bytes → Setting
  several : Bytes → CliOption → Bytes → List Bytes → Setting

abbrev pub words : Setting → List Bytes
words (flag name o) = name ∷ []
words (separate name o value) = name ∷ value ∷ []
words (attached name o value) = (name ++ (b'=' ∷ value)) ∷ []
words (several name o value values) = name ∷ value ∷ values

abbrev pub all_words : List Setting → List Bytes
all_words [] = []
all_words (g ∷ gs) = words g ++ all_words gs

-- What a setting does to the values.
abbrev pub effect : Level → Setting → Values → Result ParseError Values
effect l (flag name o) v = ok (set_bool o v)
effect l (separate name o value) v = store l o o.kind (value ∷ []) v
effect l (attached name o value) v = store l o o.kind (value ∷ []) v
effect l (several name o value values) v = store l o o.kind (value ∷ values) v

abbrev pub effects : Level → List Setting → Values → Result ParseError Values
effects l [] v = ok v
effects l (g ∷ gs) v = effect l g v >>= effects l gs

-- The name stands for the option, which is of the setting's kind, and no separate value looks like
-- an option.
abbrev pub IsMeant : Level → Bytes → CliOption → Type 0
IsMeant l name o = IsLongName name × (lookup l.cmd l.opts name ≡ ok o)

abbrev pub IsGood : Level → Setting → Type 0
IsGood l (flag name o) = IsMeant l name o × (o.kind ≡ kind_bool)
IsGood l (separate name o value) = IsMeant l name o × TakesOne o.kind × (is_option value ≡ false)
IsGood l (attached name o value) = IsMeant l name o × (¬ IsBool o.kind)
IsGood l (several name o value values) =
    IsMeant l name o × (o.kind ≡ kind_list) × All (λ w. is_option w ≡ false) (value ∷ values)

-- A list option takes every word up to the next option.
abbrev pub IsClosed : Setting → List Bytes → Type 0
IsClosed (several name o value values) more = EndsList more
IsClosed g more = Unit

abbrev pub IsReadable : Level → List Setting → List Bytes → Type 0
IsReadable l [] more = Unit
IsReadable l (g ∷ gs) more = IsGood l g × IsClosed g (all_words gs ++ more) × IsReadable l gs more

read_by_kind_flag :
    (l : Level) (o : CliOption) (tok : Bytes) (more : List Bytes) (s : Reading)
    → o.kind ≡ kind_bool
    → read_by_kind l o.kind o tok none more s ≡ next (record s { rest = more; v = set_bool o s.v })
unfolding read_by_kind read_bool
read_by_kind_flag l o tok more s e = simp e

take_values_list :
    (k : Kind) (vals more : List Bytes)
    → k ≡ kind_list
    → All (λ w. is_option w ≡ false) vals
    → EndsList more
    → take_values k none (vals ++ more) ≡ (vals, more)
unfolding take_values
take_values_list kind_list vals more e h c = words_of_list_ends vals more h c
take_values_list k vals more e h c = cc

ne-IsBool_of_list : (k : Kind) → k ≡ kind_list → ¬ IsBool k
ne-IsBool_of_list kind_bool e b = cc
ne-IsBool_of_list k e b = b

-- What a round makes of a successful store.
stored_ok :
    (more : List Bytes) (s : Reading) {v' : Values} (r : Result ParseError Values)
    → r ≡ ok v'
    → stored more s r ≡ next (record s { rest = more; v = v' })
stored_ok more s r e = ap (stored more s) e

-- A round at a setting makes its effect and goes on behind its words.
round_setting :
    (l : Level) (g : Setting) (more pos : List Bytes) (v v' : Values)
    → IsGood l g
    → IsClosed g more
    → effect l g v ≡ ok v'
    → round l (at_words (words g ++ more) pos v) ≡ next (at_words more pos v')
round_setting l (flag name o) more pos v v' ((good, found), k) c e =
    round_alone l name o good found more pos v
    ∙ read_by_kind_flag l o name more (at_words (name ∷ more) pos v) k
    ∙ ground arith
round_setting l (separate name o value) more pos v v' ((good, found), k, h) c e =
    let s = at_words (name ∷ value ∷ more) pos v in
    round_alone l name o good found (value ∷ more) pos v
    ∙ read_by_kind_values l o.kind o name none (value ∷ more) more (value ∷ []) s
        (TakesOne-ne-IsBool o.kind k) refl (take_values_one o.kind value more k h)
    ∙ stored_ok more s _ e
round_setting l (attached name o value) more pos v v' ((good, found), k) c e =
    let s = at_words ((name ++ (b'=' ∷ value)) ∷ more) pos v in
    round_inline l name o good found more pos v value
    ∙ read_by_kind_values l o.kind o (name ++ (b'=' ∷ value)) (some value) more more (value ∷ []) s
        k refl (take_values_inline o.kind value more)
    ∙ stored_ok more s _ e
round_setting l (several name o value values) more pos v v' ((good, found), k, h) c e =
    let s = at_words (name ∷ value ∷ (values ++ more)) pos v in
    round_alone l name o good found (value ∷ (values ++ more)) pos v
    ∙ read_by_kind_values l o.kind o name none (value ∷ (values ++ more)) more (value ∷ values) s
        (ne-IsBool_of_list o.kind k) refl (take_values_list o.kind (value ∷ values) more k h c)
    ∙ stored_ok more s _ e

-- The loop goes through any number of settings and makes their effects in order.
pub run_settings :
    (l : Level) (gs : List Setting) (more pos : List Bytes) (v v' : Values)
    → IsReadable l gs more
    → effects l gs v ≡ ok v'
    → run l (at_words (all_words gs ++ more) pos v) ≡ run l (at_words more pos v')
run_settings l [] more pos v v' h e = ground arith
run_settings l (g ∷ gs) more pos v v' (good, closed, h) e =
    let (u, first, rest) = >>=-eq-ok (effect l g v) (effects l gs) e in
    ap (λ ws. run l (at_words ws pos v)) (append_assoc (words g) (all_words gs) more)
    ∙ run_next l _ (round_setting l g (all_words gs ++ more) pos v u good closed first)
    ∙ run_settings l gs more pos u v' h rest

abbrev behind : List Bytes → List Bytes → Values → Reading
behind rest pos v = record { rest = rest; pos = pos; only_positionals = true; v = v }

-- Behind `--` every word is a positional, whatever it looks like.
run-behind :
    (l : Level) (rest pos : List Bytes) (v : Values)
    → l.stop_at_positional ≡ false
    → run l (behind rest pos v) ≡ ok (pos ++ rest, v)
unfolding round read_word
run-behind l [] pos v e = run_stop l (behind [] pos v) {r = ok (pos, v)} refl ∙ rw append-nil
run-behind l (w ∷ rest) pos v e =
    run_next l (behind (w ∷ rest) pos v) {s' = behind rest (pos ++ (w ∷ [])) v} (simp e)
    ∙ run-behind l rest (pos ++ (w ∷ [])) v e
    ∙ rw append_assoc

round-dashes :
    (l : Level) (ps : List Bytes) (v : Values)
    → round l (at_words (dashes ∷ ps) [] v) ≡ next (behind ps [] v)
unfolding round read_word
round-dashes l ps v = rw (is_option_long dashes (unfold has_prefix in refl), bytes_eq_refl)

-- `readOptions` of a command: whatever settings and positionals, written with `--` between them, are
-- read back, the settings in order.
pub read_options-words :
    (l : Level) (gs : List Setting) (ps : List Bytes) (v v' : Values)
    → l.stop_at_positional ≡ false
    → IsReadable l gs (dashes ∷ ps)
    → effects l gs v ≡ ok v'
    → read_options l (all_words gs ++ (dashes ∷ ps)) v ≡ ok (ps, v')
unfolding read_options
read_options-words l gs ps v v' stops h e =
    run_settings l gs (dashes ∷ ps) [] v v' h e
    ∙ run_next l _ (round-dashes l ps v')
    ∙ run-behind l ps [] v' stops

-- `readOptions` of the global level: the settings before the first other word are read, and that
-- word and all behind it are left for the command.
pub read_options-globals :
    (l : Level) (gs : List Setting) (w : Bytes) (args : List Bytes) (v v' : Values)
    → l.stop_at_positional ≡ true
    → is_option w ≡ false
    → IsReadable l gs (w ∷ args)
    → effects l gs v ≡ ok v'
    → read_options l (all_words gs ++ (w ∷ args)) v ≡ ok (w ∷ args, v')
unfolding read_options
read_options-globals l gs w args v v' stops plain h e =
    run_settings l gs (w ∷ args) [] v v' h e
    ∙ run_stop l _ (unfold round read_word in simp (plain, stops))
