-- ===== src/Prelude/Text.antt =====
-- Go strings and byte slices: lists of bytes. `codes` gives the bytes of an ASCII literal.
use Prim.Native.Nat.{ℕ, suc}
use Prim.Native.Char.{code}
use Prim.Native.String.{String}
use mathlib.Core.Path.{◌≡◌, refl, ap, ◌∙◌}
use mathlib.Core.Logic.{◌↔◌, ◌≢◌}
use mathlib.Core.Bool.{Bool, true, false, ◌&&◌, ◌||◌}
use mathlib.Core.List.{List, [], ◌∷◌, ◌++◌}
use mathlib.Core.Option.{Option, none, some}
use native.Mathlib.Omega.{arith}
use fabric_network_builder.Prelude.Lists.{All, length}
use fabric_network_builder.Prelude.Tests.{◌==◌, if◌then◌else◌}

abbrev pub Bytes : Type 0
Bytes = List ℕ

unfoldable pub codes : String → Bytes
codes String.[] = []
codes (String.◌∷◌ c s) = code c ∷ codes s

-- Go's `==` on strings.
unfoldable pub bytes_eq : Bytes → Bytes → Bool
bytes_eq [] [] = true
bytes_eq [] (d ∷ t) = false
bytes_eq (c ∷ s) [] = false
bytes_eq (c ∷ s) (d ∷ t) = c == d && bytes_eq s t

pub bytes_eq_refl : (s : Bytes) → bytes_eq s s ≡ true
unfolding bytes_eq
bytes_eq_refl [] = refl
bytes_eq_refl (c ∷ s) = ground (arith, bytes_eq_refl s)

pub bytes_eq→eq : (s t : Bytes) → bytes_eq s t ≡ true → s ≡ t
unfolding bytes_eq
bytes_eq→eq [] [] h = refl
bytes_eq→eq [] (d ∷ t) h = cc
bytes_eq→eq (c ∷ s) [] h = cc
bytes_eq→eq (c ∷ s) (d ∷ t) h = ground (arith, bytes_eq→eq s t)

pub bytes_eq_iff : (s t : Bytes) → (bytes_eq s t ≡ true) ↔ (s ≡ t)
bytes_eq_iff s t = (bytes_eq→eq s t, λ e. rw e (bytes_eq_refl t))

-- `slices.Contains` on strings.
unfoldable pub contains : List Bytes → Bytes → Bool
contains [] s = false
contains (t ∷ ts) s = bytes_eq t s || contains ts s

-- `strings.HasPrefix`
unfoldable pub has_prefix : Bytes → Bytes → Bool
has_prefix s [] = true
has_prefix [] (p ∷ prefix) = false
has_prefix (c ∷ s) (p ∷ prefix) = c == p && has_prefix s prefix

-- `strings.CutPrefix`
unfoldable pub cut_prefix : Bytes → Bytes → Option Bytes
cut_prefix s [] = some s
cut_prefix [] (p ∷ prefix) = none
cut_prefix (c ∷ s) (p ∷ prefix) = let rest = cut_prefix s prefix in if c == p then rest else none

-- `strings.Cut` at one byte: the part before it, and the part behind it if the byte occurs.
abbrev consed : ℕ → Bytes × Option Bytes → Bytes × Option Bytes
consed c (before, after) = (c ∷ before, after)

unfoldable pub cut : ℕ → Bytes → Bytes × Option Bytes
cut sep [] = ([], none)
cut sep (c ∷ s) = let rest = consed c (cut sep s) in if c == sep then ([], some s) else rest

-- `strings.Split` at one byte, and `strings.Join`.
abbrev onto : ℕ → List Bytes → List Bytes
onto c [] = (c ∷ []) ∷ []
onto c (p ∷ ps) = (c ∷ p) ∷ ps

unfoldable pub split : Bytes → ℕ → List Bytes
split [] sep = [] ∷ []
split (c ∷ s) sep = let rest = split s sep in if c == sep then [] ∷ rest else onto c rest

unfoldable pub join : List Bytes → Bytes → Bytes
join [] sep = []
join (p ∷ []) sep = p
join (p ∷ q ∷ ps) sep = p ++ (sep ++ join (q ∷ ps) sep)

pub has_prefix-append : (p s : Bytes) → has_prefix (p ++ s) p ≡ true
unfolding has_prefix
has_prefix-append [] s = refl
has_prefix-append (c ∷ p) s = ground (arith, has_prefix-append p s)

pub cut_prefix-append : (p s : Bytes) → cut_prefix (p ++ s) p ≡ some s
unfolding cut_prefix
cut_prefix-append [] s = refl
cut_prefix-append (c ∷ p) s = ground (arith, cut_prefix-append p s)

-- No byte of the text is `sep`.
abbrev pub Lacks : ℕ → Bytes → Type 0
Lacks sep = All (λ c. c ≢ sep)

split_last : (p : Bytes) (sep : ℕ) → Lacks sep p → split p sep ≡ p ∷ []
unfolding split
split_last [] sep h = refl
split_last (c ∷ p) sep (hc, h) = ground (arith, split_last p sep h)

split_at :
    (p rest : Bytes) (sep : ℕ) → Lacks sep p → split (p ++ (sep ∷ rest)) sep ≡ p ∷ split rest sep
unfolding split
split_at [] rest sep h = ground arith
split_at (c ∷ p) rest sep (hc, h) = ground (arith, split_at p rest sep h)

-- Joined parts without the separator are split again.
pub split-join :
    (p : Bytes) (ps : List Bytes) (sep : ℕ)
    → All (Lacks sep) (p ∷ ps)
    → split (join (p ∷ ps) (sep ∷ [])) sep ≡ p ∷ ps
unfolding join
split-join p [] sep (h, hs) = split_last p sep h
split-join p (q ∷ ps) sep (h, hs) =
    split_at p (join (q ∷ ps) (sep ∷ [])) sep h ∙ ap (λ l. p ∷ l) (split-join q ps sep hs)

-- `strings.HasSuffix`
unfoldable pub has_suffix : Bytes → Bytes → Bool
has_suffix [] suffix = bytes_eq [] suffix
has_suffix (c ∷ s) suffix = bytes_eq (c ∷ s) suffix || has_suffix s suffix

-- A text without the separator is cut at the first one behind it.
pub cut-append : (p s : Bytes) (sep : ℕ) → Lacks sep p → cut sep (p ++ (sep ∷ s)) ≡ (p, some s)
unfolding cut
cut-append [] s sep h = ground arith
cut-append (c ∷ p) s sep (hc, h) = ground (arith, cut-append p s sep h)

-- How many bytes of a text are `c`.
unfoldable pub occurrences : ℕ → Bytes → ℕ
occurrences c [] = 0
occurrences c (d ∷ s) = let rest = occurrences c s in if d == c then suc rest else rest

length-onto : (c : ℕ) (ps : List Bytes) → ps ≢ [] → length (onto c ps) ≡ length ps
length-onto c [] h = absurd (h refl)
length-onto c (p ∷ ps) h = refl

pub length-split : (s : Bytes) (sep : ℕ) → length (split s sep) ≡ suc (occurrences sep s)
unfolding split occurrences
length-split [] sep = refl
length-split (c ∷ s) sep = ground (
  arith,
  length-split s sep,
  length-onto c (split s sep) (λ e. omega (arith, length-split s sep, ap length e)),
)
