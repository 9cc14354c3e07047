-- ===== src/Cli/Args/Lookup/Choice.antt =====
-- Which option `lookup` returns.
use fabric_network_builder.Prelude.{
  ◌≡◌, ◌≢◌, ◌↔◌, ◌⊎◌, inl, inr, refl, Bool, true, false, Option, none, some, List, [], ◌∷◌, ◌++◌,
  arith, ap, ◌∙◌, All, Bytes, has_prefix, Bool-cases, Option-cases, ok,
}
use fabric_network_builder.Cli.Args.Options.{CliOption, Command}
use fabric_network_builder.Cli.Args.Lookup.{
  has_name, exact, dashes, long_match, prefix_matches, pick, lookup,
}

-- The first option of the list of which `P` holds.
pub record IsFirst (P : CliOption → Bool) (opts : List CliOption) (o : CliOption) : Type 0 where
  pub before : List CliOption
  pub after : List CliOption
  pub split : opts ≡ before ++ (o ∷ after)
  pub holds : P o ≡ true
  pub fresh : All (λ b. P b ≡ false) before

abbrev pub Extends : Bytes → CliOption → Type 0
Extends name o = long_match o.names name ≢ none

-- The only option with a long name that begins with `name`.
pub record IsOnly (name : Bytes) (opts : List CliOption) (o : CliOption) : Type 0 where
  pub before : List CliOption
  pub after : List CliOption
  pub split : opts ≡ before ++ (o ∷ after)
  pub holds : Extends name o
  pub others_before : All (λ b. long_match b.names name ≡ none) before
  pub others_after : All (λ b. long_match b.names name ≡ none) after

exact-IsFirst :
    (opts : List CliOption) (name : Bytes) (o : CliOption)
    → exact opts name ≡ some o
    → IsFirst (λ b. has_name b.names name) opts o
unfolding exact
exact-IsFirst [] name o e = cc
exact-IsFirst (p ∷ opts) name o e = elim (Bool-cases (has_name p.names name)) [
  | inl yes_name ↦
      let same : p ≡ o = ground arith in
      record {
        before = [];
        after = opts;
        split = rw same;
        holds = rw (← same) yes_name;
        fresh = tt;
      }
  | inr no_name ↦
      let r = exact-IsFirst opts name o (ground arith) in
      record {
        before = p ∷ r.before;
        after = r.after;
        split = rw r.split;
        holds = r.holds;
        fresh = (no_name, r.fresh);
      }
]

prefix_matches-nil :
    (opts : List CliOption) (name : Bytes)
    → prefix_matches opts name ≡ []
    → All (λ b. long_match b.names name ≡ none) opts
unfolding prefix_matches
prefix_matches-nil [] name e = tt
prefix_matches-nil (p ∷ opts) name e = elim (Option-cases (long_match p.names name)) [
  | inl absent ↦ (absent, prefix_matches-nil opts name (ground arith))
  | inr (n, found) ↦ absurd (ground arith)
]

prefix_matches-IsOnly :
    (opts : List CliOption) (name : Bytes) (o : CliOption) (n : Bytes)
    → prefix_matches opts name ≡ (o, n) ∷ []
    → IsOnly name opts o
unfolding prefix_matches
prefix_matches-IsOnly [] name o n e = cc
prefix_matches-IsOnly (p ∷ opts) name o n e = elim (Option-cases (long_match p.names name)) [
  | inl absent ↦
      let r = prefix_matches-IsOnly opts name o n (ground arith) in
      record {
        before = p ∷ r.before;
        after = r.after;
        split = ap (λ l. p ∷ l) r.split;
        holds = r.holds;
        others_before = (absent, r.others_before);
        others_after = r.others_after;
      }
  | inr (m, found) ↦
      let same : p ≡ o = ground arith in
      record {
        before = [];
        after = opts;
        split = ap (λ q. q ∷ opts) same;
        holds = ground arith;
        others_before = tt;
        others_after = prefix_matches-nil opts name (ground arith);
      }
]

exact-none :
    (opts : List CliOption) (name : Bytes)
    → exact opts name ≡ none
    → All (λ b. has_name b.names name ≡ false) opts
unfolding exact
exact-none [] name e = tt
exact-none (p ∷ opts) name e = elim (Bool-cases (has_name p.names name)) [
  | inl h ↦ absurd (ground arith)
  | inr h ↦ (h, exact-none opts name (ground arith))
]

pick-IsOnly :
    (cmd : Option Command) (opts : List CliOption) (name : Bytes) (o : CliOption)
    (ms : List (CliOption × Bytes))
    → prefix_matches opts name ≡ ms
    → pick cmd name ms ≡ ok o
    → IsOnly name opts o
unfolding pick
pick-IsOnly cmd opts name o [] e h = cc
pick-IsOnly cmd opts name o ((p, n) ∷ []) e h =
    let same : p ≡ o = ground arith in prefix_matches-IsOnly opts name o n (rw same at e)
pick-IsOnly cmd opts name o (m ∷ m' ∷ ms) e h = cc

-- What a name stands for: the first option that has it, or, where none has it and it is long, the
-- only option with a long name that begins with it.
abbrev pub Denotes : List CliOption → Bytes → CliOption → Type 0
Denotes opts name o =
    IsFirst (λ b. has_name b.names name) opts o
    ⊎ (All (λ b. has_name b.names name ≡ false) opts
        × (has_prefix name dashes ≡ true)
        × IsOnly name opts o)

lookup_sound :
    (cmd : Option Command) (opts : List CliOption) (name : Bytes) (o : CliOption)
    → lookup cmd opts name ≡ ok o
    → Denotes opts name o
unfolding lookup
lookup_sound cmd opts name o e = elim (Option-cases (exact opts name)) [
  | inr (p, found) ↦
      let same : p ≡ o = ground arith in inl (exact-IsFirst opts name o (found ∙ ap some same))
  | inl absent ↦ elim (Bool-cases (has_prefix name dashes)) [
    | inr short ↦ absurd (ground arith)
    | inl long ↦ inr (
      exact-none opts name absent,
      long,
      pick-IsOnly cmd opts name o (prefix_matches opts name) refl (ground arith),
    )
  ]
]

exact_complete :
    (name : Bytes) (before after : List CliOption) (o : CliOption)
    → has_name o.names name ≡ true
    → All (λ b. has_name b.names name ≡ false) before
    → exact (before ++ (o ∷ after)) name ≡ some o
unfolding exact
exact_complete name [] after o h fresh = rw h
exact_complete name (b ∷ before) after o h (hb, fresh) =
    rw hb (exact_complete name before after o h fresh)

exact_absent :
    (name : Bytes) (opts : List CliOption)
    → All (λ b. has_name b.names name ≡ false) opts
    → exact opts name ≡ none
unfolding exact
exact_absent name [] h = refl
exact_absent name (b ∷ opts) (hb, h) = rw hb (exact_absent name opts h)

prefix_matches_absent :
    (name : Bytes) (opts : List CliOption)
    → All (λ b. long_match b.names name ≡ none) opts
    → prefix_matches opts name ≡ []
unfolding prefix_matches
prefix_matches_absent name [] h = refl
prefix_matches_absent name (b ∷ opts) (hb, h) = rw hb (prefix_matches_absent name opts h)

prefix_matches_complete :
    (name : Bytes) (before after : List CliOption) (o : CliOption) (n : Bytes)
    → long_match o.names name ≡ some n
    → All (λ b. long_match b.names name ≡ none) before
    → All (λ b. long_match b.names name ≡ none) after
    → prefix_matches (before ++ (o ∷ after)) name ≡ (o, n) ∷ []
unfolding prefix_matches
prefix_matches_complete name [] after o n h hb ha = rw (h, prefix_matches_absent name after ha)
prefix_matches_complete name (b ∷ before) after o n h (hb, hbs) ha =
    rw hb (prefix_matches_complete name before after o n h hbs ha)

lookup_complete :
    (cmd : Option Command) (opts : List CliOption) (name : Bytes) (o : CliOption)
    → Denotes opts name o
    → lookup cmd opts name ≡ ok o
unfolding lookup pick
lookup_complete cmd opts name o (inl f) =
    rw (f.split, exact_complete name f.before f.after o f.holds f.fresh)
lookup_complete cmd opts name o (inr (absent, long, only)) =
    rw (exact_absent name opts absent, long)
      (elim (Option-cases (long_match o.names name)) [
        | inl missing ↦ absurd (only.holds missing)
        | inr (n, found) ↦ rw (
          only.split,
          prefix_matches_complete name only.before only.after o n found only.others_before
              only.others_after,
        )
      ])

-- `lookup` returns an option exactly when the name denotes it.
pub lookup_iff :
    (cmd : Option Command) (opts : List CliOption) (name : Bytes) (o : CliOption)
    → (lookup cmd opts name ≡ ok o) ↔ Denotes opts name o
lookup_iff cmd opts name o = (lookup_sound cmd opts name o, lookup_complete cmd opts name o)
