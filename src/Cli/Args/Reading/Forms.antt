-- ===== src/Cli/Args/Reading/Forms.antt =====
-- One round of `readOptions` at a word that sets an option, in each of its forms.
use mathlib.Core.Path.{subst}
use fabric_network_builder.Prelude.{
  ℕ, ◌≡◌, ◌≢◌, refl, true, false, none, some, List, [], ◌∷◌, ◌++◌, arith, Lacks, Bytes, has_prefix,
  cut, bytes_eq, bytes_eq_iff, ok, ◌∙◌, sym,
}
use fabric_network_builder.Cli.Args.Options.{CliOption, Values}
use fabric_network_builder.Cli.Args.Lookup.{dashes, lookup}
use fabric_network_builder.Cli.Args.Reading.{
  Level, Reading, split_token, read_by_kind, read_option, read_word, round, is_option,
  negative_number, short_help, long_help,
}

-- A word that begins with two dashes is read as an option.
pub is_option_long : (tok : Bytes) → has_prefix tok dashes ≡ true → is_option tok ≡ true
unfolding is_option has_prefix negative_number
is_option_long [] h = cc
is_option_long (a ∷ []) h = ground arith
is_option_long (a ∷ b ∷ s) h = ground arith

pub cut_lacking : (sep : ℕ) (s : Bytes) → Lacks sep s → cut sep s ≡ (s, none)
unfolding cut
cut_lacking sep [] h = refl
cut_lacking sep (c ∷ s) (hc, h) = ground (arith, cut_lacking sep s h)

pub cut_at : (sep : ℕ) (s t : Bytes) → Lacks sep s → cut sep (s ++ (sep ∷ t)) ≡ (s, some t)
unfolding cut
cut_at sep [] t h = ground arith
cut_at sep (c ∷ s) t (hc, h) = ground (arith, cut_at sep s t h)

has_prefix-extend : (s t p : Bytes) → has_prefix s p ≡ true → has_prefix (s ++ t) p ≡ true
unfolding has_prefix
has_prefix-extend s t [] h = refl
has_prefix-extend [] t (q ∷ p) h = cc
has_prefix-extend (c ∷ s) t (q ∷ p) h = ground (arith, has_prefix-extend s t p)

-- A long option name as a user writes it: `--` and something, without `=`, and not `--help`.
pub record IsLongName (name : Bytes) : Type 0 where
  pub long : has_prefix name dashes ≡ true
  pub no_equals : Lacks b'=' name
  pub no_marker : name ≢ dashes
  pub no_help : name ≢ long_help

module _ (l : Level) (name : Bytes) (o : CliOption) (good : IsLongName name)
    (found : lookup l.cmd l.opts name ≡ ok o) where
  -- The word alone.
  read_option_alone :
      (more : List Bytes) (s : Reading)
      → read_option l name more s ≡ read_by_kind l o.kind o name none more s
  unfolding read_option split_token
  read_option_alone more s = rw (good.long, cut_lacking b'=' name good.no_equals, found)

  -- The word with a value attached.
  read_option_inline :
      (value : Bytes) (more : List Bytes) (s : Reading)
      → read_option l (name ++ (b'=' ∷ value)) more s
        ≡ read_by_kind l o.kind o (name ++ (b'=' ∷ value)) (some value) more s
  unfolding read_option split_token
  read_option_inline value more s = rw (
    has_prefix-extend name (b'=' ∷ value) dashes good.long,
    cut_at b'=' name value good.no_equals,
    found,
  )

bytes_ne : (s t : Bytes) → s ≢ t → bytes_eq s t ≡ false
bytes_ne s t h = ground (arith, bytes_eq_iff s t)

-- A word that is an option and none of the three special ones goes to `lookup`.
read_word_option :
    (l : Level) (tok : Bytes) (more : List Bytes) (s : Reading)
    → s.only_positionals ≡ false
    → is_option tok ≡ true
    → tok ≢ dashes
    → tok ≢ short_help
    → tok ≢ long_help
    → read_word l tok more s ≡ read_option l tok more s
unfolding read_word
read_word_option l tok more s e h a b c =
    ground (arith, bytes_ne tok dashes a, bytes_ne tok short_help b, bytes_ne tok long_help c)

short_help-ne : (tok : Bytes) → has_prefix tok dashes ≡ true → tok ≢ short_help
unfolding has_prefix
short_help-ne tok h e =
    let g : has_prefix short_help dashes ≡ true = subst (λ t. has_prefix t dashes ≡ true) e h in
    ground arith

-- A word with `=` in it is none of the words that the loop names.
equals-ne :
    (name value w : Bytes) → Lacks b'=' name → cut b'=' w ≡ (w, none) → name ++ (b'=' ∷ value) ≢ w
equals-ne name value w h whole e =
    let g : cut b'=' w ≡ (name, some value) =
      subst (λ t. cut b'=' t ≡ (name, some value)) e (cut_at b'=' name value h) in
    cc (sym whole ∙ g)

whole_help : cut b'=' long_help ≡ (long_help, none)
unfolding cut
whole_help = refl

whole_dashes : cut b'=' dashes ≡ (dashes, none)
unfolding cut
whole_dashes = refl

-- The state before a word that is not behind `--`.
abbrev pub at_words : List Bytes → List Bytes → Values → Reading
at_words rest pos v = record { rest = rest; pos = pos; only_positionals = false; v = v }

module _ (l : Level) (name : Bytes) (o : CliOption) (good : IsLongName name)
    (found : lookup l.cmd l.opts name ≡ ok o) (more pos : List Bytes) (v : Values) where
  -- The round at a long name: the words behind it are read by the kind of its option.
  pub round_alone :
      round l (at_words (name ∷ more) pos v)
      ≡ read_by_kind l o.kind o name none more (at_words (name ∷ more) pos v)
  unfolding round
  round_alone =
      read_word_option l name more (at_words (name ∷ more) pos v) refl
        (is_option_long name good.long) good.no_marker (short_help-ne name good.long) good.no_help
      ∙ read_option_alone l name o good found more (at_words (name ∷ more) pos v)

  pub round_inline :
      (value : Bytes)
      → round l (at_words ((name ++ (b'=' ∷ value)) ∷ more) pos v)
        ≡ read_by_kind l o.kind o
            (name ++ (b'=' ∷ value))
            (some value)
            more
            (at_words ((name ++ (b'=' ∷ value)) ∷ more) pos v)
  unfolding round
  round_inline value =
      let long = has_prefix-extend name (b'=' ∷ value) dashes good.long in
      let tok : Bytes = name ++ (b'=' ∷ value) in
      read_word_option l tok more (at_words (tok ∷ more) pos v) refl (is_option_long tok long)
        (equals-ne name value dashes good.no_equals whole_dashes) (short_help-ne tok long)
        (equals-ne name value long_help good.no_equals whole_help)
      ∙ read_option_inline l name o good found value more (at_words (tok ∷ more) pos v)
