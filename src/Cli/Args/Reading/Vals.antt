-- ===== src/Cli/Args/Reading/Vals.antt =====
-- The values that `readOptions` takes for an option, by its kind.
use fabric_network_builder.Prelude.{
  ◌≡◌, refl, true, false, Option, none, some, List, [], ◌∷◌, ◌++◌, All, Bytes,
}
use fabric_network_builder.Cli.Args.Options.{
  Kind, kind_bool, kind_string, kind_int, kind_list, kind_append, CliOption,
}
use fabric_network_builder.Cli.Args.Reading.{
  Level, Reading, words_of_list, word_of_one, take_values, store, stored, read_value, read_by_kind,
  is_option,
}

-- The kinds whose options take exactly one word.
abbrev pub TakesOne : Kind → Type 0
TakesOne kind_bool = ⊥
TakesOne kind_list = ⊥
TakesOne kind_string = Unit
TakesOne kind_int = Unit
TakesOne kind_append = Unit

abbrev pub IsBool : Kind → Type 0
IsBool kind_bool = Unit
IsBool k = ⊥

-- An option that takes values stores the ones that `take_values` finds.
pub read_by_kind_values :
    (l : Level) (k : Kind) (o : CliOption) (tok : Bytes) (inline : Option Bytes)
    (more more' vals : List Bytes) (s : Reading)
    → ¬ IsBool k
    → o.kind ≡ k
    → take_values k inline more ≡ (vals, more')
    → read_by_kind l k o tok inline more s ≡ stored more' s (store l o k vals s.v)
unfolding read_by_kind read_value
read_by_kind_values l kind_bool o tok inline more more' vals s b e t = absurd (b tt)
read_by_kind_values l kind_string o tok inline more more' vals s b e t = simp (e, t)
read_by_kind_values l kind_int o tok inline more more' vals s b e t = simp (e, t)
read_by_kind_values l kind_list o tok inline more more' vals s b e t = simp (e, t)
read_by_kind_values l kind_append o tok inline more more' vals s b e t = simp (e, t)

pub take_values_inline :
    (k : Kind) (value : Bytes) (more : List Bytes)
    → take_values k (some value) more ≡ (value ∷ [], more)
unfolding take_values
take_values_inline kind_bool value more = refl
take_values_inline k value more = refl

pub take_values_one :
    (k : Kind) (value : Bytes) (more : List Bytes)
    → TakesOne k
    → is_option value ≡ false
    → take_values k none (value ∷ more) ≡ (value ∷ [], more)
unfolding take_values word_of_one
take_values_one kind_list value more t h = absurd t
take_values_one kind_bool value more t h = absurd t
take_values_one kind_string value more t h = rw h
take_values_one kind_int value more t h = rw h
take_values_one kind_append value more t h = rw h

-- What follows the words of a list option: nothing, or a word that is read as an option.
abbrev pub EndsList : List Bytes → Type 0
EndsList [] = Unit
EndsList (w ∷ more) = is_option w ≡ true

pub words_of_list_ends :
    (vals more : List Bytes)
    → All (λ w. is_option w ≡ false) vals
    → EndsList more
    → words_of_list (vals ++ more) ≡ (vals, more)
unfolding words_of_list
words_of_list_ends [] [] h e = refl
words_of_list_ends [] (w ∷ more) h e = rw e
words_of_list_ends (val ∷ vals) more (hv, h) e = rw (hv, words_of_list_ends vals more h e)

pub TakesOne-ne-IsBool : (k : Kind) → TakesOne k → ¬ IsBool k
TakesOne-ne-IsBool kind_bool t b = t
TakesOne-ne-IsBool k t b = b
