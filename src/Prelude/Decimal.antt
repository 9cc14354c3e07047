-- ===== src/Prelude/Decimal.antt =====
-- `strconv.Itoa` and `strconv.Atoi`.
use Prim.Native.Nat.{ℕ, zero, suc, ◌+◌, ◌-◌, ◌*◌, ◌/◌, ◌%◌, ◌^◌}
use Prim.Native.Nat.{◌<◌}
use mathlib.Core.Path.{◌≡◌, refl, ◌∙◌, ap, sym}
use mathlib.Core.Logic.{◌≢◌}
use mathlib.Core.Bool.{Bool, true, false, ◌&&◌}
use mathlib.Core.List.{[], ◌∷◌, ◌++◌}
use mathlib.Core.Option.{Option, none, some, some-injective}
use native.Mathlib.Omega.{arith}
use fabric_network_builder.Prelude.Tests.{ltb, leb, ◌==◌, if◌then◌else◌}
use fabric_network_builder.Prelude.Text.{Bytes}
use fabric_network_builder.Prelude.Lists.{All}
use fabric_network_builder.Prelude.Int.{ℤ, pos, negsuc, sub_ℕ}

-- The digits of `n` before `out`; the fuel bounds their number.
digits : ℕ → ℕ → Bytes → Bytes
digits zero n out = out
digits (suc fuel) n out =
    let more = digits fuel (n / 10) ((b'0' + n % 10) ∷ out) in
    if ltb n 10 then (b'0' + n) ∷ out else more

-- A number has fewer digits than its value plus one.
unfoldable pub print_ℕ : ℕ → Bytes
unfolding digits
print_ℕ n = digits (suc n) n []

unfoldable pub itoa : ℤ → Bytes
itoa (pos n) = print_ℕ n
itoa (negsuc n) = b'-' ∷ print_ℕ (suc n)

abbrev pub is_digit : ℕ → Bool
is_digit c = leb b'0' c && leb c b'9'

-- The number that digits spell behind `n`; `none` at another byte.
unfoldable pub scan : Bytes → ℕ → Option ℕ
scan [] n = some n
scan (c ∷ s) n = if is_digit c then scan s (n * 10 + (c - b'0')) else none

-- One or more digits.
unfoldable pub parse_ℕ : Bytes → Option ℕ
unfolding scan
parse_ℕ [] = none
parse_ℕ (c ∷ s) = scan (c ∷ s) 0

-- `none` is a syntax error, or a value that an `int` of 64 bits does not hold.
positive : Option ℕ → Option ℤ
positive none = none
positive (some n) = if ltb n (2 ^ 63) then some (pos n) else none

negative : Option ℕ → Option ℤ
negative none = none
negative (some n) = if leb n (2 ^ 63) then some (sub_ℕ 0 n) else none

unfoldable pub atoi : Bytes → Option ℤ
unfolding positive negative
atoi [] = none
atoi (c ∷ s) =
    if c == b'-'
    then negative (parse_ℕ s)
    else if c == b'+'
    then positive (parse_ℕ s)
    else positive (parse_ℕ (c ∷ s))

scan-digits : (fuel n : ℕ) (out : Bytes) → n < fuel → scan (digits fuel n out) 0 ≡ scan out n
unfolding scan digits
scan-digits zero n out h = absurd (omega arith)
scan-digits (suc fuel) n out h = ground (arith, scan-digits fuel (n / 10) ((b'0' + n % 10) ∷ out))

digits-ne-nil : (fuel n : ℕ) (out : Bytes) → n < fuel → digits fuel n out ≢ []
unfolding digits
digits-ne-nil zero n out h = absurd (omega arith)
digits-ne-nil (suc fuel) n out h =
    ground (arith, digits-ne-nil fuel (n / 10) ((b'0' + n % 10) ∷ out))

parse_ℕ-scan : (s : Bytes) → s ≢ [] → parse_ℕ s ≡ scan s 0
unfolding parse_ℕ
parse_ℕ-scan [] h = absurd (h refl)
parse_ℕ-scan (c ∷ s) h = refl

-- A printed number is read back.
pub parse_ℕ-print_ℕ : (n : ℕ) → parse_ℕ (print_ℕ n) ≡ some n
unfolding print_ℕ scan
parse_ℕ-print_ℕ n =
    parse_ℕ-scan (digits (suc n) n []) (digits-ne-nil (suc n) n [] (omega arith))
    ∙ scan-digits (suc n) n [] (omega arith)

pub print_ℕ_injective : (m n : ℕ) → print_ℕ m ≡ print_ℕ n → m ≡ n
print_ℕ_injective m n e =
    some-injective m n (sym (parse_ℕ-print_ℕ m) ∙ ap parse_ℕ e ∙ parse_ℕ-print_ℕ n)

scan-append : (s t : Bytes) (n m : ℕ) → scan s n ≡ some m → scan (s ++ t) n ≡ scan t m
unfolding scan
scan-append [] t n m e = ap (scan t) (some-injective n m e)
scan-append (c ∷ s) t n m e = ground (arith, scan-append s t (n * 10 + (c - b'0')) m)

append-ne-nil : (s t : Bytes) → s ≢ [] → s ++ t ≢ []
append-ne-nil [] t h = absurd (h refl)
append-ne-nil (c ∷ s) t h = λ e. cc

-- A printed number with more digits behind it.
pub parse_ℕ-print_append : (n : ℕ) (t : Bytes) → parse_ℕ (print_ℕ n ++ t) ≡ scan t n
unfolding print_ℕ
parse_ℕ-print_append n t =
    let full = digits-ne-nil (suc n) n [] (omega arith) in
    parse_ℕ-scan (digits (suc n) n [] ++ t) (append-ne-nil _ t full)
    ∙ scan-append (digits (suc n) n []) t 0 n
        (sym (parse_ℕ-scan (digits (suc n) n []) full) ∙ parse_ℕ-print_ℕ n)

-- What `parse_ℕ` reads, `atoi` reads, when an `int` holds it.
pub atoi-parse_ℕ : (s : Bytes) (n : ℕ) → parse_ℕ s ≡ some n → n < 2 ^ 63 → atoi s ≡ some (pos n)
unfolding atoi positive negative parse_ℕ scan
atoi-parse_ℕ [] n e h = ground arith
atoi-parse_ℕ (c ∷ s) n e h = ground arith

digits-All :
    (P : ℕ → Type 0) (fuel n : ℕ) (out : Bytes)
    → ((d : ℕ) → d < 10 → P (b'0' + d))
    → All P out
    → All P (digits fuel n out)
unfolding digits
digits-All P zero n out digit h = h
digits-All P (suc fuel) n out digit h =
    chosen _ _ (ltb n 10) (λ e. (digit n (ground (arith, e)), h))
      (digits-All P fuel (n / 10) ((b'0' + n % 10) ∷ out) digit (digit (n % 10) (omega arith), h))
  where
    chosen : (s t : Bytes) (b : Bool) → (b ≡ true → All P s) → All P t → All P (if b then s else t)
    chosen s t true hs ht = hs refl
    chosen s t false hs ht = ht

-- A printed number has no dot, and is made of digits.
pub print_ℕ-ne-dot : (n : ℕ) → All (λ c. c ≢ b'.') (print_ℕ n)
unfolding print_ℕ
print_ℕ-ne-dot n = digits-All (λ c. c ≢ b'.') (suc n) n [] (λ d h. omega arith) tt

pub print_ℕ-digits : (n : ℕ) → All (λ c. is_digit c ≡ true) (print_ℕ n)
unfolding print_ℕ
print_ℕ-digits n = digits-All (λ c. is_digit c ≡ true) (suc n) n [] (λ d h. ground arith) tt

pub print_ℕ-ne-nil : (n : ℕ) → print_ℕ n ≢ []
unfolding print_ℕ
print_ℕ-ne-nil n = digits-ne-nil (suc n) n [] (omega arith)
