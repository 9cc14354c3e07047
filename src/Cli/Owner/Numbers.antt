-- ===== src/Cli/Owner/Numbers.antt =====
-- IDs that are numbers are the owner's.
use fabric_network_builder.Prelude.{
  ℕ, ◌<◌, ◌^◌, [], ◌∷◌, ◌++◌, true, false, ◌≡◌, ◌≢◌, refl, some, Bytes, cut-append, Lacks, is_nil,
  pos, ok, arith, All,
}
use fabric_network_builder.Prelude.Decimal.{
  atoi-parse_ℕ, parse_ℕ-print_ℕ, print_ℕ, print_ℕ-digits, print_ℕ-ne-nil, is_digit,
}
use fabric_network_builder.Cli.Owner.{Accounts, user_part, group_part, parse_chown}

digits-Lacks : (p : Bytes) → All (λ c. is_digit c ≡ true) p → Lacks b':' p
digits-Lacks [] h = tt
digits-Lacks (c ∷ p) (hc, h) = (λ e. ground arith, digits-Lacks p h)

is_nil-false : (s : Bytes) → s ≢ [] → is_nil s ≡ false
is_nil-false [] h = elim (h refl) [ ]
is_nil-false (c ∷ s) h = refl

is_nil-append : (p s : Bytes) (c : ℕ) → is_nil (p ++ (c ∷ s)) ≡ false
is_nil-append [] s c = refl
is_nil-append (d ∷ p) s c = refl

-- A user's and a group's number, with a colon between them, are the owner, where they are below
-- 2^63, whatever the user database says.
pub parse_chown-print_ℕ :
    (A : Accounts) (u g : ℕ)
    → u < 2 ^ 63
    → g < 2 ^ 63
    → parse_chown A (print_ℕ u ++ (b':' ∷ print_ℕ g))
      ≡ ok (some (record { uid = pos u; gid = pos g }))
unfolding parse_chown user_part group_part
parse_chown-print_ℕ A u g hu hg = simp (
  is_nil-append (print_ℕ u) (print_ℕ g) b':',
  cut-append (print_ℕ u) (print_ℕ g) b':' (digits-Lacks (print_ℕ u) (print_ℕ-digits u)),
  is_nil-false (print_ℕ u) (print_ℕ-ne-nil u),
  is_nil-false (print_ℕ g) (print_ℕ-ne-nil g),
  atoi-parse_ℕ (print_ℕ u) u (parse_ℕ-print_ℕ u) hu,
  atoi-parse_ℕ (print_ℕ g) g (parse_ℕ-print_ℕ g) hg,
)
