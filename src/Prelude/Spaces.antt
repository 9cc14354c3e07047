-- ===== src/Prelude/Spaces.antt =====
-- White space as Go's strings package sees it: the code points of unicode.IsSpace, in UTF-8.
use Prim.Native.Nat.{ℕ, zero, suc, ◌-◌}
use mathlib.Core.Bool.{Bool, true, false, ◌&&◌, ◌||◌}
use mathlib.Core.List.{List, [], ◌∷◌, ◌++◌}
use fabric_network_builder.Prelude.Tests.{leb, ◌==◌, if◌then◌else◌}
use fabric_network_builder.Prelude.Text.{Bytes}

-- The bytes of the space at the start of a text, or none.
abbrev between : ℕ → ℕ → ℕ → Bool
between a b c = leb a c && leb c b

ascii_space : ℕ → Bool
ascii_space c = between 9 13 c || c == 32

two_bytes : ℕ → ℕ → Bool
two_bytes c d = c == 194 && (d == 133 || d == 160)

three_bytes : ℕ → ℕ → ℕ → Bool
three_bytes c d e =
    (c == 225 && d == 154 && e == 128)
    || (c == 226 && d == 128 && (between 128 138 e || e == 168 || e == 169 || e == 175))
    || (c == 226 && d == 129 && e == 159)
    || (c == 227 && d == 128 && e == 128)

unfoldable pub space_width : Bytes → ℕ
unfolding ascii_space two_bytes three_bytes
space_width [] = 0
space_width (c ∷ []) = if ascii_space c then 1 else 0
space_width (c ∷ d ∷ []) = if ascii_space c then 1 else if two_bytes c d then 2 else 0
space_width (c ∷ d ∷ e ∷ s) =
    if ascii_space c then 1 else if two_bytes c d then 2 else if three_bytes c d e then 3 else 0

-- The rest behind spaces; the number counts bytes of a space that are still to skip.
skip_spaces : ℕ → Bytes → Bytes
skip_spaces k [] = []
skip_spaces (suc k) (c ∷ s) = skip_spaces k s
skip_spaces zero (c ∷ s) =
    let rest = skip_spaces (space_width (c ∷ s) - 1) s in
    if space_width (c ∷ s) == 0 then c ∷ s else rest

unfoldable pub trim_left : Bytes → Bytes
unfolding skip_spaces
trim_left s = skip_spaces 0 s

is_empty : Bytes → Bool
is_empty [] = true
is_empty (c ∷ s) = false

unfoldable pub trim_right : Bytes → Bytes
unfolding trim_left is_empty
trim_right [] = []
trim_right (c ∷ s) =
    let rest = trim_right s in if is_empty (trim_left (c ∷ s)) then [] else c ∷ rest

-- `strings.TrimSpace`
unfoldable pub trim_space : Bytes → Bytes
trim_space s = trim_right (trim_left s)

-- `strings.Fields`: the word read so far, and the bytes of a space that are still to skip.
word_before : Bytes → List Bytes → List Bytes
word_before [] words = words
word_before (c ∷ w) words = (c ∷ w) ∷ words

fields_from : ℕ → Bytes → Bytes → List Bytes
unfolding word_before
fields_from k w [] = word_before w []
fields_from (suc k) w (c ∷ s) = fields_from k w s
fields_from zero w (c ∷ s) =
    let width = space_width (c ∷ s) in
    let rest = fields_from (width - 1) (if width == 0 then w ++ (c ∷ []) else []) s in
    if width == 0 then rest else word_before w rest

unfoldable pub fields : Bytes → List Bytes
unfolding fields_from
fields s = fields_from 0 [] s
