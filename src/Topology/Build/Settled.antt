-- ===== src/Topology/Build/Settled.antt =====
-- The options of an accepted network, with the defaults that `New` fills in, and its policies.
use mathlib.Core.Path.{subst}
use fabric_network_builder.Prelude.{
  ℕ, ◌+◌, ◌*◌, ◌/◌, ◌^◌, ◌<◌, ◌≡◌, refl, ap, ◌∙◌, sym, arith, [], Bool-cases, inl, inr, Bytes,
  bytes_eq, bytes_eq_iff, ℤ, pos, negsuc, eqb_ℤ, eqb_ℤ_iff, half, wrap, wrap-pos, ◌+ℤ◌, ok,
}
use fabric_network_builder.Prelude.Defaults.{IsOrDefault}
use fabric_network_builder.Topology.Options.{Options}
use fabric_network_builder.Topology.Policies.{Policies, compute_policies, total_peers}
use fabric_network_builder.Topology.Policies.Collections.{total_peers-pos}
use fabric_network_builder.Topology.Build.{
  Network, new, network_of, with_connect_domain, with_min_endorsers,
}
use fabric_network_builder.Topology.Build.Accepted.{
  new-eq-ok, compute_policies-connect_domain, with_connect_domain-counts,
}

-- The network's options and policies, in a network with `total` peers.
pub record IsSettled (opts : Options) (total : ℕ) (n : Network) : Type 0 where
  pub connect_domain :
      IsOrDefault [] opts.domain_name opts.connect_domain_name n.options.connect_domain_name
  pub min_endorsers :
      IsOrDefault (negsuc 0) (pos (total / 2 + 1)) opts.min_endorsers n.options.min_endorsers
  pub others : n.options ≡ record opts {
    connect_domain_name = n.options.connect_domain_name;
    min_endorsers = n.options.min_endorsers;
  }
  pub policies :
      compute_policies opts
      ≡ ok (record { endorsement_policy = n.endorsement_policy; collections = n.collections })

domain_filled :
    (opts : Options)
    → IsOrDefault [] opts.domain_name opts.connect_domain_name
        (with_connect_domain opts).connect_domain_name
unfolding with_connect_domain
domain_filled opts = elim (Bool-cases (bytes_eq opts.connect_domain_name [])) [
  | inl unset ↦ rw unset (inr ((bytes_eq_iff opts.connect_domain_name []).0 unset, refl))
  | inr set ↦ rw set (inl ((λ e. cc (set, (bytes_eq_iff opts.connect_domain_name []).1 e)), refl))
]

domain_only :
    (opts : Options)
    → with_connect_domain opts
      ≡ record opts { connect_domain_name = (with_connect_domain opts).connect_domain_name }
unfolding with_connect_domain
domain_only opts = elim (Bool-cases (bytes_eq opts.connect_domain_name [])) [
  | inl unset ↦ rw unset refl
  | inr set ↦ rw set refl
]

majority-pos : (total : ℕ) → total < 2 ^ 63 → wrap (half (pos total) +ℤ pos 1) ≡ pos (total / 2 + 1)
unfolding half ◌+ℤ◌
majority-pos total fits =
    let e : pos (total / 2) +ℤ pos 1 ≡ pos (total / 2 + 1) = ground arith in
    ap wrap e ∙ wrap-pos (total / 2 + 1) (omega arith)

module _ (opts : Options) where
  endorsers_filled :
      (total : ℕ)
      → total_peers opts ≡ pos total
      → total < 2 ^ 63
      → IsOrDefault
          (negsuc 0)
          (pos (total / 2 + 1))
          opts.min_endorsers
          (with_min_endorsers opts).min_endorsers
  unfolding with_min_endorsers
  endorsers_filled total peers fits =
      let majority = ap (λ z. wrap (half z +ℤ pos 1)) peers ∙ majority-pos total fits in
      elim (Bool-cases (eqb_ℤ opts.min_endorsers (negsuc 0))) [
        | inl unset ↦ rw unset (inr ((eqb_ℤ_iff opts.min_endorsers (negsuc 0)).0 unset, majority))
        | inr set ↦
            rw set (inl ((λ e. cc (set, (eqb_ℤ_iff opts.min_endorsers (negsuc 0)).1 e)), refl))
      ]

  endorsers_only :
      with_min_endorsers opts
      ≡ record opts { min_endorsers = (with_min_endorsers opts).min_endorsers }
  unfolding with_min_endorsers
  endorsers_only = elim (Bool-cases (eqb_ℤ opts.min_endorsers (negsuc 0))) [
    | inl unset ↦ rw unset refl
    | inr set ↦ rw set refl
  ]

kept_domain :
    (opts : Options) → (with_min_endorsers opts).connect_domain_name ≡ opts.connect_domain_name
kept_domain opts = ap (λ o. o.connect_domain_name) (endorsers_only opts)

abbrev with_endorsers : ℤ → Options → Options
with_endorsers z o = record o { min_endorsers = z }

abbrev with_domain : Options → ℤ → Bytes → Options
with_domain o z d = record o { connect_domain_name = d; min_endorsers = z }

network_of-IsSettled :
    (opts : Options) (policies : Policies) (total : ℕ)
    → total_peers (with_connect_domain opts) ≡ pos total
    → total < 2 ^ 63
    → compute_policies opts ≡ ok policies
    → IsSettled opts total (network_of (with_connect_domain opts) policies)
unfolding network_of
network_of-IsSettled opts policies total peers fits computed =
    let filled = with_connect_domain opts in
    let same = domain_only opts in
    record {
      connect_domain =
          subst (IsOrDefault [] opts.domain_name opts.connect_domain_name)
            (sym (kept_domain filled)) (domain_filled opts);
      min_endorsers =
          subst
            (λ z.
              IsOrDefault (negsuc 0) (pos (total / 2 + 1)) z
                (with_min_endorsers filled).min_endorsers)
            (ap (λ o. o.min_endorsers) same) (endorsers_filled filled total peers fits);
      others =
          endorsers_only filled
          ∙ ap (with_endorsers (with_min_endorsers filled).min_endorsers) same
          ∙ ap (with_domain opts (with_min_endorsers filled).min_endorsers)
              (sym (kept_domain filled));
      policies = computed;
    }

-- In a network that `New` returns, with less than 2^63 peers, the connect domain is the one of the
-- options, or the domain where that is empty, the number of endorsers is the one of the options, or
-- one more than half of all peers, rounded down, where that is -1, the other options are as given,
-- and the endorsement policy and the collections are those of computePolicies.
pub new-IsSettled :
    (opts : Options) (n : Network) (o q : ℕ)
    → opts.org_count ≡ pos o
    → opts.peer_count ≡ pos q
    → o * q < 2 ^ 63
    → new opts ≡ ok n
    → IsSettled opts (o * q) n
new-IsSettled opts n o q eo eq fits e =
    let (built, (policies, computed, same)) = (new-eq-ok opts n).0 e in
    let (os, ps, rs) = with_connect_domain-counts opts in
    subst (IsSettled opts (o * q)) (sym same) (
      network_of-IsSettled opts policies (o * q)
        (total_peers-pos (with_connect_domain opts) o q (os ∙ eo) (ps ∙ eq) fits) fits
        (sym (compute_policies-connect_domain opts) ∙ computed))
