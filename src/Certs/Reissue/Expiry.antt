-- ===== src/Certs/Reissue/Expiry.antt =====
-- The new expiry of a leaf.
use mathlib.Core.Path.{subst}
use fabric_network_builder.Prelude.{
  ℕ, ◌+◌, ◌*◌, ◌^◌, ◌<◌, ◌≤◌, Bool, true, false, not, if◌then◌else◌, ◌≡◌, refl, ap, ◌∙◌, ℤ, pos,
  ltb_ℤ, ◌+ℤ◌, ◌*ℤ◌, wrap, wrap-pos, arith, sym, Bool-cases, inl, inr,
}
use fabric_network_builder.Certs.Reissue.{ReissueOptions, days_duration, new_expiry}

-- The nanoseconds of a day.
abbrev pub day : ℕ
day = 24 * (3600 * 10 ^ 9)

times-pos : (a b : ℕ) → pos a *ℤ pos b ≡ pos (a * b)
unfolding ◌*ℤ◌
times-pos a b = ground arith

days_duration-pos : (d : ℕ) → d ≤ 106751 → days_duration (pos d) ≡ pos (d * day)
unfolding days_duration
days_duration-pos d h =
    ap (λ x. wrap (wrap x *ℤ pos (3600 * 10 ^ 9))) (times-pos d 24)
    ∙ ap (λ x. wrap (x *ℤ pos (3600 * 10 ^ 9))) (wrap-pos (d * 24) (omega arith))
    ∙ ap wrap (times-pos (d * 24) (3600 * 10 ^ 9))
    ∙ wrap-pos (d * 24 * (3600 * 10 ^ 9)) (omega arith)
    ∙ ap pos (omega arith)

plus-pos : (a b : ℕ) → pos a +ℤ pos b ≡ pos (a + b)
unfolding ◌+ℤ◌
plus-pos a b = ground arith

-- The earlier of two times behind a third.
abbrev pub Earlier : ℕ → ℕ → ℕ → ℤ → Type 0
Earlier n c m z = record {
  0 : ℕ;
  1 : z ≡ pos «0»;
  2 : n < «0»;
  3 : «0» ≤ c;
  4 : c < m → «0» ≡ c;
  5 : m ≤ c → «0» ≡ m;
}

abbrev earlier_of : ℕ → ℕ → ℤ × Bool
earlier_of c m = if ltb_ℤ (pos c) (pos m) then (pos c, true) else (pos m, false)

chosen : (n c m : ℕ) → n < c → n < m → Earlier n c m (earlier_of c m).0
chosen n c m hc hm = elim (Bool-cases (ltb_ℤ (pos c) (pos m))) [
  | inl e ↦ (c, ground arith, hc, omega arith, λ h. refl, λ h. ground arith)
  | inr e ↦ (m, ground arith, hm, ground arith, λ h. ground arith, λ h. refl)
]

chosen_of : Bool → ℤ → ℤ → ℤ × Bool
chosen_of set c z = if not set then (c, false) else if ltb_ℤ c z then (c, true) else (z, false)

chosen_of-le : (set : Bool) (c z : ℤ) → ltb_ℤ c (chosen_of set c z).0 ≡ false
unfolding chosen_of
chosen_of-le set c z = ground arith

-- Whatever the options, the new expiry is not later than the CA's.
pub new_expiry-le :
    (o : ReissueOptions) (now ca_expiry : ℤ)
    → ltb_ℤ ca_expiry (new_expiry o now ca_expiry).0 ≡ false
unfolding new_expiry chosen_of
new_expiry-le o now ca_expiry = chosen_of-le o.days_set ca_expiry (now +ℤ days_duration o.days)

-- With --days from 1 to 106751, and a CA that expires after now, the new expiry is that number of
-- days from now, or the CA's expiry where that is earlier: it is later than now and not later than
-- the CA's.
pub new_expiry-IsBounded :
    (o : ReissueOptions) (d n c : ℕ)
    → o.days_set ≡ true
    → o.days ≡ pos d
    → 1 ≤ d
    → d ≤ 106751
    → n < c
    → Earlier n c (n + d * day) (new_expiry o (pos n) (pos c)).0
unfolding new_expiry
new_expiry-IsBounded o d n c set days low high current =
    let requested : pos n +ℤ days_duration o.days ≡ pos (n + d * day) =
      ap (λ x. pos n +ℤ days_duration x) days
      ∙ ap (λ x. pos n +ℤ x) (days_duration-pos d high)
      ∙ plus-pos n (d * day) in
    let e : new_expiry o (pos n) (pos c) ≡ earlier_of c (n + d * day) =
      ap
        (λ b.
          if not b
          then (pos c, false)
          else if ltb_ℤ (pos c) (pos n +ℤ days_duration o.days)
          then (pos c, true)
          else (pos n +ℤ days_duration o.days, false))
        set
      ∙ ap (λ x. if ltb_ℤ (pos c) x then (pos c, true) else (x, false)) requested in
    subst (λ (r : ℤ × Bool). Earlier n c (n + d * day) r.0) (sym e)
      (chosen n c (n + d * day) current (omega arith))
