-- ===== src/Cli/Args/Reading/Progress.antt =====
-- The loop of `readOptions` ends: a round uses up a byte or a word.
use fabric_network_builder.Prelude.{
  ℕ, zero, suc, ◌+◌, ◌≤◌, ◌<◌, ◌≡◌, refl, ◌⊎◌, inl, inr, Option, none, some, List, [], ◌∷◌, arith,
  length, drop, Bytes, has_prefix, Bool-cases, Result, ok, err, ◌∙◌,
}
use fabric_network_builder.Cli.Args.Options.{
  Kind, kind_bool, kind_string, kind_int, kind_list, kind_append, CliOption, Values, Command,
  ParseError, usage_error, help, fuel_spent,
}
use fabric_network_builder.Cli.Args.Lookup.{dashes, lookup, pick, prefix_matches}
use fabric_network_builder.Cli.Args.Reading.{
  Level, Reading, Step, next, stop, split_token, read_bool, words_of_list, word_of_one, take_values,
  store, read_value, read_by_kind, read_found, read_option, read_word, round, round_on, read_loop,
  size, run, start, read_options,
}

-- A round below the measure `n`: it goes on with less to read, or stops with a proper result.
abbrev Shrinks : ℕ → Step → Type 0
Shrinks n (next s) = size s.rest < n
Shrinks n (stop (ok r)) = Unit
Shrinks n (stop (err (usage_error cmd message))) = Unit
Shrinks n (stop (err (help cmd))) = Unit
Shrinks n (stop (err fuel_spent)) = ⊥

abbrev pub IsProper {ℓ} : {A : Type ℓ} → Result ParseError A → Type 0
IsProper (ok a) = Unit
IsProper (err (usage_error cmd message)) = Unit
IsProper (err (help cmd)) = Unit
IsProper (err fuel_spent) = ⊥

pick-IsProper :
    (cmd : Option Command) (name : Bytes) (ms : List (CliOption × Bytes))
    → IsProper (pick cmd name ms)
unfolding pick
pick-IsProper cmd name [] = tt
pick-IsProper cmd name ((o, n) ∷ []) = tt
pick-IsProper cmd name (m ∷ m' ∷ ms) = tt

lookup-IsProper :
    (cmd : Option Command) (opts : List CliOption) (name : Bytes) → IsProper (lookup cmd opts name)
unfolding lookup
lookup-IsProper cmd opts name = ground (arith, pick-IsProper cmd name (prefix_matches opts name))

store-IsProper :
    (l : Level) (o : CliOption) (k : Kind) (vals : List Bytes) (v : Values)
    → IsProper (store l o k vals v)
unfolding store
store-IsProper l o kind_bool [] v = tt
store-IsProper l o kind_string [] v = tt
store-IsProper l o kind_int [] v = tt
store-IsProper l o kind_list [] v = tt
store-IsProper l o kind_append [] v = tt
store-IsProper l o kind_bool (val ∷ vals) v = tt
store-IsProper l o kind_string (val ∷ vals) v = tt
store-IsProper l o kind_int (val ∷ vals) v = ground arith
store-IsProper l o kind_list (val ∷ vals) v = tt
store-IsProper l o kind_append (val ∷ vals) v = tt

size-words_of_list : (ws : List Bytes) → size (words_of_list ws).1 ≤ size ws
unfolding words_of_list size
size-words_of_list [] = omega arith
size-words_of_list (w ∷ ws) = ground (arith, size-words_of_list ws)

size-word_of_one : (ws : List Bytes) → size (word_of_one ws).1 ≤ size ws
unfolding word_of_one size
size-word_of_one [] = omega arith
size-word_of_one (w ∷ ws) = ground arith

size-take_values :
    (k : Kind) (inline : Option Bytes) (ws : List Bytes)
    → size (take_values k inline ws).1 ≤ size ws
unfolding take_values
size-take_values k (some x) ws = omega arith
size-take_values kind_list none ws = size-words_of_list ws
size-take_values kind_bool none ws = size-word_of_one ws
size-take_values kind_string none ws = size-word_of_one ws
size-take_values kind_int none ws = size-word_of_one ws
size-take_values kind_append none ws = size-word_of_one ws

read_value-Shrinks :
    (l : Level) (o : CliOption) (inline : Option Bytes) (more : List Bytes) (s : Reading) (n : ℕ)
    → size more < n
    → Shrinks n (read_value l o inline more s)
unfolding read_value
read_value-Shrinks l o inline more s n h = ground (
  arith,
  size-take_values o.kind inline more,
  store-IsProper l o o.kind (take_values o.kind inline more).0 s.v,
)

length-drop_two : (tok : Bytes) → 2 < length tok → length (drop 2 tok) + 2 ≡ length tok
length-drop_two (a ∷ b ∷ tok) h = omega arith
length-drop_two [] h = absurd (omega arith)
length-drop_two (a ∷ []) h = absurd (omega arith)

read_bool-Shrinks :
    (l : Level) (o : CliOption) (tok : Bytes) (more : List Bytes) (s : Reading)
    → Shrinks (size (tok ∷ more)) (read_bool l o tok (split_token tok).1 more s)
unfolding read_bool size split_token
read_bool-Shrinks l o tok more s = elim (Bool-cases (has_prefix tok dashes)) [
  | inl long ↦ rw long (ground (arith, long))
  | inr short ↦ rw short (ground (arith, short, length-drop_two tok))
]

read_by_kind-Shrinks :
    (l : Level) (k : Kind) (o : CliOption) (tok : Bytes) (more : List Bytes) (s : Reading)
    → Shrinks (size (tok ∷ more)) (read_by_kind l k o tok (split_token tok).1 more s)
unfolding read_by_kind size
read_by_kind-Shrinks l kind_bool o tok more s = read_bool-Shrinks l o tok more s
read_by_kind-Shrinks l kind_string o tok more s = read_value-Shrinks l o _ more s _ (omega arith)
read_by_kind-Shrinks l kind_int o tok more s = read_value-Shrinks l o _ more s _ (omega arith)
read_by_kind-Shrinks l kind_list o tok more s = read_value-Shrinks l o _ more s _ (omega arith)
read_by_kind-Shrinks l kind_append o tok more s = read_value-Shrinks l o _ more s _ (omega arith)

read_found-Shrinks :
    (l : Level) (tok : Bytes) (more : List Bytes) (s : Reading)
    (found : Result ParseError CliOption)
    → IsProper found
    → Shrinks (size (tok ∷ more)) (read_found l tok (split_token tok).1 more s found)
read_found-Shrinks l tok more s (ok o) h = read_by_kind-Shrinks l o.kind o tok more s
read_found-Shrinks l tok more s (err (usage_error cmd message)) h = tt
read_found-Shrinks l tok more s (err (help cmd)) h = tt
read_found-Shrinks l tok more s (err fuel_spent) h = h

read_option-Shrinks :
    (l : Level) (tok : Bytes) (more : List Bytes) (s : Reading)
    → Shrinks (size (tok ∷ more)) (read_option l tok more s)
unfolding read_option
read_option-Shrinks l tok more s =
    read_found-Shrinks l tok more s (lookup l.cmd l.opts (split_token tok).0)
      (lookup-IsProper l.cmd l.opts (split_token tok).0)

size-tail : (tok : Bytes) (more : List Bytes) → size more < size (tok ∷ more)
unfolding size
size-tail tok more = omega arith

read_word-Shrinks :
    (l : Level) (tok : Bytes) (more : List Bytes) (s : Reading)
    → Shrinks (size (tok ∷ more)) (read_word l tok more s)
unfolding read_word
read_word-Shrinks l tok more s =
    ground (arith, size-tail tok more, read_option-Shrinks l tok more s)

round_on-Shrinks :
    (l : Level) (rest : List Bytes) (s : Reading) → Shrinks (size rest) (round_on l rest s)
round_on-Shrinks l [] s = tt
round_on-Shrinks l (tok ∷ more) s = read_word-Shrinks l tok more s

round-Shrinks : (l : Level) (s : Reading) → Shrinks (size s.rest) (round l s)
unfolding round
round-Shrinks l s = round_on-Shrinks l s.rest s

Step-cases :
    (t : Step)
    → ((s : Reading) × (t ≡ next s))
      ⊎ ((r : Result ParseError (List Bytes × Values)) × (t ≡ stop r))
Step-cases (next s) = inl (s, refl)
Step-cases (stop r) = inr (r, refl)

-- With more fuel than bytes and words to read, the loop ends by itself.
pub read_loop-IsProper :
    (l : Level) (fuel : ℕ) (s : Reading) → size s.rest < fuel → IsProper (read_loop l fuel s)
unfolding read_loop
read_loop-IsProper l zero s h = absurd (omega arith)
read_loop-IsProper l (suc fuel) s h = elim (Step-cases (round l s)) [
  | inl (s', e) ↦
      let shrinks : Shrinks (size s.rest) (next s') = rw e at (round-Shrinks l s) in
      rw (e, read_loop) (read_loop-IsProper l fuel s' (omega arith))
  | inr (r, e) ↦
      let shrinks : Shrinks (size s.rest) (stop r) = rw e at (round-Shrinks l s) in
      rw (e, read_loop) (proper r shrinks)
]
  where
    proper :
        (r : Result ParseError (List Bytes × Values)) → Shrinks (size s.rest) (stop r) → IsProper r
    proper (ok a) p = tt
    proper (err (usage_error cmd message)) p = tt
    proper (err (help cmd)) p = tt
    proper (err fuel_spent) p = p

-- More fuel than is enough changes nothing.
pub read_loop_fuel :
    (l : Level) (fuel fuel' : ℕ) (s : Reading)
    → size s.rest < fuel
    → size s.rest < fuel'
    → read_loop l fuel s ≡ read_loop l fuel' s
unfolding read_loop
read_loop_fuel l zero fuel' s h h' = absurd (omega arith)
read_loop_fuel l (suc fuel) zero s h h' = absurd (omega arith)
read_loop_fuel l (suc fuel) (suc fuel') s h h' = elim (Step-cases (round l s)) [
  | inl (s', e) ↦
      let shrinks : Shrinks (size s.rest) (next s') = rw e at (round-Shrinks l s) in
      rw (e, read_loop) (read_loop_fuel l fuel fuel' s' (omega arith) (omega arith))
  | inr (r, e) ↦ rw (e, read_loop)
]

-- The loop by rounds, with no fuel in sight.
pub run_next : (l : Level) (s : Reading) {s' : Reading} → round l s ≡ next s' → run l s ≡ run l s'
unfolding run
run_next l s {s'} e =
    let shrinks : Shrinks (size s.rest) (next s') = rw e at (round-Shrinks l s) in
    read_loop_fuel l (size s.rest + 1) (suc (size s.rest)) s (omega arith) (omega arith)
    ∙ rw (e, read_loop) (read_loop_fuel l _ _ s' (omega arith) (omega arith))

pub run_stop :
    (l : Level) (s : Reading) {r : Result ParseError (List Bytes × Values)}
    → round l s ≡ stop r
    → run l s ≡ r
unfolding run
run_stop l s {r} e =
    read_loop_fuel l (size s.rest + 1) (suc (size s.rest)) s (omega arith) (omega arith)
    ∙ rw (e, read_loop)

-- `readOptions` returns, whatever the words are.
pub read_options-IsProper :
    (l : Level) (args : List Bytes) (v : Values) → IsProper (read_options l args v)
unfolding read_options run
read_options-IsProper l args v = read_loop-IsProper l (size args + 1) (start args v) (omega arith)
