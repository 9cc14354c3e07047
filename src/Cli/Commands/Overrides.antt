-- ===== src/Cli/Commands/Overrides.antt =====
-- Image overrides that fit are all taken.
use fabric_network_builder.Prelude.{
  List, [], ◌∷◌, ◌++◌, map, true, false, if◌then◌else◌, ◌≡◌, ◌≢◌, refl, sym, ap, ◌∙◌, none, some,
  Bytes, bytes_eq, bytes_eq_iff, contains, cut, cut-append, Lacks, is_nil, Result, ok, ◌>>=◌, All,
  inl, inr, Bool-cases,
}
use fabric_network_builder.Prelude.Dict
use fabric_network_builder.Prelude.Dict.{Dict, lookup-insert}
use fabric_network_builder.Cli.Commands.{
  OverrideError, add_override, parse_override, parse_pairs, parse_image_overrides,
}

-- `NAME=IMAGE`
abbrev pub written : Bytes × Bytes → Bytes
written (name, image) = name ++ (b'=' ∷ image)

-- A name of the chaincodes without an equals sign, and an image.
abbrev pub Fits : List Bytes → Bytes × Bytes → Type 0
Fits names (name, image) =
    (is_nil name ≡ false) × (is_nil image ≡ false) × Lacks b'=' name × (contains names name ≡ true)

-- No name occurs twice.
abbrev pub IsDistinct : List (Bytes × Bytes) → Type 0
IsDistinct [] = Unit
IsDistinct ((name, image) ∷ pairs) = All (λ p. p.0 ≢ name) pairs × IsDistinct pairs

abbrev Holds : Dict Bytes → Bytes × Bytes → Type 0
Holds d (name, image) = Dict.lookup name d ≡ some image

abbrev Misses : Dict Bytes → Bytes × Bytes → Type 0
Misses d (name, image) = Dict.lookup name d ≡ none

-- The overrides that are taken.
abbrev pub Taken : Result OverrideError (Dict Bytes) → List (Bytes × Bytes) → Type 0
Taken r pairs = record { 0 : Dict Bytes; 1 : r ≡ ok «0»; 2 : All (Holds «0») pairs }

distinct-false : (j k : Bytes) → j ≢ k → bytes_eq j k ≡ false
distinct-false j k h = elim (Bool-cases (bytes_eq j k)) [
  | inl e ↦ elim (h ((bytes_eq_iff j k).0 e)) [ ]
  | inr e ↦ e
]

lookup-other :
    (j k v : Bytes) (d : Dict Bytes) → j ≢ k → Dict.lookup j (Dict.insert k v d) ≡ Dict.lookup j d
lookup-other j k v d h =
    lookup-insert j k v d ∙ ap (λ b. if b then some v else Dict.lookup j d) (distinct-false j k h)

lookup-own : (k v : Bytes) (d : Dict Bytes) → Dict.lookup k (Dict.insert k v d) ≡ some v
lookup-own k v d =
    lookup-insert k k v d
    ∙ ap (λ b. if b then some v else Dict.lookup k d) ((bytes_eq_iff k k).1 refl)

still_missing :
    (name image : Bytes) (d : Dict Bytes) (pairs : List (Bytes × Bytes))
    → All (λ p. p.0 ≢ name) pairs
    → All (Misses d) pairs
    → All (Misses (Dict.insert name image d)) pairs
still_missing name image d [] h m = tt
still_missing name image d ((k, v) ∷ pairs) (h, hs) (m, ms) =
    (lookup-other k name image d h ∙ m, still_missing name image d pairs hs ms)

one_taken :
    (names : List Bytes) (name image : Bytes) (d : Dict Bytes)
    → Fits names (name, image)
    → Misses d (name, image)
    → parse_override names (written (name, image)) (cut b'=' (written (name, image))) d
      ≡ ok (Dict.insert name image d)
unfolding parse_override add_override
one_taken names name image d (some_name, some_image, lacks, known) missing =
    simp (cut-append name image b'=' lacks, some_name, some_image, known, missing)

-- The images behind the loop, with those that were there before.
Loop : List Bytes → List (Bytes × Bytes) → Dict Bytes → Type 0
Loop names pairs d = record {
  0 : Dict Bytes;
  1 : parse_pairs names (map written pairs) d ≡ ok «0»;
  2 : All (Holds «0») pairs;
  3 : (k : Bytes) → All (λ p. p.0 ≢ k) pairs → Dict.lookup k «0» ≡ Dict.lookup k d;
}

parse_pairs-Loop :
    (names : List Bytes) (pairs : List (Bytes × Bytes)) (d : Dict Bytes)
    → All (Fits names) pairs
    → IsDistinct pairs
    → All (Misses d) pairs
    → Loop names pairs d
unfolding Loop parse_pairs
parse_pairs-Loop names [] d fits distinct missing = (d, refl, tt, λ k h. refl)
parse_pairs-Loop names ((name, image) ∷ pairs) d (fit, fits) (apart, distinct) (missing, others) =
    let d₁ = Dict.insert name image d in
    let (d₂, parsed, held, same) =
      parse_pairs-Loop names pairs d₁ fits distinct
        (still_missing name image d pairs apart others) in
    (
      d₂,
      ap (λ r. r >>= parse_pairs names (map written pairs))
            (one_taken names name image d fit missing)
          ∙ parsed,
      (same name apart ∙ lookup-own name image d, held),
      λ k h. same k h.1 ∙ lookup-other k name image d (λ e. h.0 (sym e)),
    )

none_missing : (pairs : List (Bytes × Bytes)) → All (Misses []) pairs
unfolding Dict.lookup
none_missing [] = tt
none_missing (p ∷ pairs) = (refl, none_missing pairs)

-- Overrides NAME=IMAGE whose names are different names of the chaincodes, without an equals sign, and
-- whose names and images are not empty, are accepted, and each name has its image.
pub parse_image_overrides-Taken :
    (names : List Bytes) (pairs : List (Bytes × Bytes))
    → All (Fits names) pairs
    → IsDistinct pairs
    → Taken (parse_image_overrides (map written pairs) names) pairs
unfolding parse_image_overrides Loop
parse_image_overrides-Taken names pairs fits distinct =
    let (d, parsed, held, same) =
      parse_pairs-Loop names pairs [] fits distinct (none_missing pairs) in
    (d, parsed, held)
