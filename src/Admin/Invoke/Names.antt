-- ===== src/Admin/Invoke/Names.antt =====
-- The names of peers are read back.
use fabric_network_builder.Prelude.{
  ℕ, ◌^◌, ◌<◌, ◌≢◌, [], ◌∷◌, ◌++◌, true, false, some, ◌≡◌, refl, ap, ◌∙◌, Bytes, codes, cut_prefix,
  pos, All, is_nil, arith,
}
use fabric_network_builder.Prelude.Decimal.{
  is_digit, itoa, parse_ℕ, print_ℕ, parse_ℕ-print_ℕ, print_ℕ-digits, print_ℕ-ne-nil,
}
use fabric_network_builder.Vars.{Vars, org_name, peer_name}
use fabric_network_builder.Admin.Invoke.{
  span_digits, no_newline, is_domain, clip, org_of, peer_of, parse_peer,
}

-- Digits with a dot behind them are split before the dot.
span_digits-dot :
    (s t : Bytes) → All (λ c. is_digit c ≡ true) s → span_digits (s ++ (b'.' ∷ t)) ≡ (s, b'.' ∷ t)
unfolding span_digits
span_digits-dot [] t h = refl
span_digits-dot (c ∷ s) t (d, h) = let rest = span_digits-dot s t h in simp (d, rest)

clip-parse_ℕ : (n : ℕ) → n < 2 ^ 63 → clip (parse_ℕ (print_ℕ n)) ≡ pos n
unfolding clip
clip-parse_ℕ n h = ap clip (parse_ℕ-print_ℕ n) ∙ ground (arith, h)

is_nil-print_ℕ : (n : ℕ) → is_nil (print_ℕ n) ≡ false
is_nil-print_ℕ n = full (print_ℕ n) (print_ℕ-ne-nil n)
  where
    full : (s : Bytes) → s ≢ [] → is_nil s ≡ false
    full [] h = absurd (h refl)
    full (c ∷ s) h = refl

org_of-print_ℕ :
    (i j d : ℕ) (ds : Bytes)
    → i < 2 ^ 63
    → j < 2 ^ 63
    → no_newline (d ∷ ds) ≡ true
    → org_of (print_ℕ j) (print_ℕ i, b'.' ∷ d ∷ ds) ≡ some (record { org = pos i; peer = pos j })
unfolding org_of is_domain
org_of-print_ℕ i j d ds hi hj h = simp (is_nil-print_ℕ i, h, clip-parse_ℕ i hi, clip-parse_ℕ j hj)

peer_of-print_ℕ :
    (i j d : ℕ) (ds : Bytes)
    → i < 2 ^ 63
    → j < 2 ^ 63
    → no_newline (d ∷ ds) ≡ true
    → peer_of (print_ℕ j, codes ".org" ++ (print_ℕ i ++ (b'.' ∷ d ∷ ds)))
      ≡ some (record { org = pos i; peer = pos j })
unfolding peer_of codes cut_prefix
peer_of-print_ℕ i j d ds hi hj h = simp (
  is_nil-print_ℕ j,
  span_digits-dot (print_ℕ i) (d ∷ ds) (print_ℕ-digits i),
  org_of-print_ℕ i j d ds hi hj h,
)

-- The host name of a peer, in a domain that is not empty and has no newline, is parsed to the indices
-- of its org and of the peer, when they are below 2^63.
pub parse_peer-peer_name :
    (v : Vars) (i j d : ℕ) (ds : Bytes)
    → v.domain_name ≡ d ∷ ds
    → no_newline (d ∷ ds) ≡ true
    → i < 2 ^ 63
    → j < 2 ^ 63
    → parse_peer (peer_name v (pos i) (pos j)) ≡ some (record { org = pos i; peer = pos j })
unfolding parse_peer peer_name org_name itoa codes cut_prefix
parse_peer-peer_name v i j d ds domain h hi hj =
    let behind : Bytes = codes ".org" ++ (print_ℕ i ++ (b'.' ∷ d ∷ ds)) in
    ap (λ m. peer_of (span_digits (print_ℕ j ++ (b'.' ∷ (codes "org" ++ print_ℕ i ++ (b'.' ∷ m))))))
      domain
    ∙ ap peer_of (span_digits-dot (print_ℕ j) _ (print_ℕ-digits j))
    ∙ peer_of-print_ℕ i j d ds hi hj h
