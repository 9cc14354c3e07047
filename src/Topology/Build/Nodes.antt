-- ===== src/Topology/Build/Nodes.antt =====
-- The nodes of the network that `New` returns, by the options that it is given.
use fabric_network_builder.Prelude.{
  ℕ, ◌+◌, ◌*◌, ◌^◌, ◌<◌, ◌≡◌, ap, ◌∙◌, sym, some, length, get_elem?, codes, ℤ, pos_part, ok,
}
use mathlib.Core.Path.{subst}
use fabric_network_builder.Topology.Options.{Options}
use fabric_network_builder.Topology.Policies.{num, Policies}
use fabric_network_builder.Topology.Build.{
  Network, new_org, new_orderer, network_of, new, with_connect_domain,
}
use fabric_network_builder.Topology.Build.Accepted.{new-eq-ok, with_connect_domain-counts}
use fabric_network_builder.Topology.Build.Shape.{
  network_of-lengths, network_of-peer_ports, network_of-orderers, network_of-orgs,
}

abbrev pub orgs_in : Options → ℕ
orgs_in opts = pos_part opts.org_count

abbrev pub peers_in : Options → ℕ
peers_in opts = pos_part opts.peer_count

-- As many orgs, peers for each and orderers as the options say, and a port entry for each peer.
pub new-lengths :
    (opts : Options) (n : Network)
    → new opts ≡ ok n
    → (length n.orgs ≡ orgs_in opts)
      × (length n.peer_indices ≡ peers_in opts)
      × (length n.orderers ≡ pos_part opts.orderer_count)
      × (length n.peer_ports ≡ orgs_in opts * peers_in opts)
new-lengths opts n e =
    let (built, (policies, computed, same)) = (new-eq-ok opts n).0 e in
    let (os, ps, rs) = with_connect_domain-counts opts in
    let (a, b, c, d) = network_of-lengths (with_connect_domain opts) policies in
    (
      ap (λ m. length m.orgs) same ∙ a ∙ ap pos_part os,
      ap (λ m. length m.peer_indices) same ∙ b ∙ ap pos_part ps,
      ap (λ m. length m.orderers) same ∙ c ∙ ap pos_part rs,
      ap (λ m. length m.peer_ports) same
          ∙ d
          ∙ ap (λ z. pos_part z * pos_part (with_connect_domain opts).peer_count) os
          ∙ ap (λ z. orgs_in opts * pos_part z) ps,
    )

-- Peer j of org i + 1 is the entry i * peers + j, and has the port prefix 70 + 10 * (i * peers + j).
pub new-peer_ports :
    (opts : Options) (n : Network) (i j : ℕ)
    → new opts ≡ ok n
    → i < orgs_in opts
    → j < peers_in opts
    → 70 + 10 * (orgs_in opts * peers_in opts) < 2 ^ 63
    → get_elem? n.peer_ports (i * peers_in opts + j)
      ≡ some (record {
        org = num (1 + i);
        peer = num j;
        bootstrap = codes "0";
        prefix = num (70 + 10 * (i * peers_in opts + j));
      })
new-peer_ports opts n i j e hi hj fits =
    let (built, (policies, computed, same)) = (new-eq-ok opts n).0 e in
    ap (λ m. get_elem? m.peer_ports (i * peers_in opts + j)) same ∙ moved policies
  where
    Claim : Policies → ℤ → ℤ → Type 0
    Claim policies os ps =
        i < pos_part os
        → j < pos_part ps
        → 70 + 10 * (pos_part os * pos_part ps) < 2 ^ 63
        → get_elem? (network_of (with_connect_domain opts) policies).peer_ports
            (i * pos_part ps + j)
          ≡ some (record {
            org = num (1 + i);
            peer = num j;
            bootstrap = codes "0";
            prefix = num (70 + 10 * (i * pos_part ps + j));
          })

    moved :
        (policies : Policies)
        → get_elem?
            (network_of (with_connect_domain opts) policies).peer_ports
            (i * peers_in opts + j)
          ≡ some (record {
            org = num (1 + i);
            peer = num j;
            bootstrap = codes "0";
            prefix = num (70 + 10 * (i * peers_in opts + j));
          })
    moved policies =
        let (os, ps, rs) = with_connect_domain-counts opts in
        let at_orgs =
          subst (λ z. Claim policies z (with_connect_domain opts).peer_count) os
            (network_of-peer_ports (with_connect_domain opts) policies i j) in
        subst (λ z. Claim policies opts.org_count z) ps at_orgs hi hj fits

pub new-orderers :
    (opts : Options) (n : Network) (i : ℕ)
    → new opts ≡ ok n
    → i < pos_part opts.orderer_count
    → get_elem? n.orderers i ≡ some (new_orderer (with_connect_domain opts) i)
new-orderers opts n i e h =
    let (built, (policies, computed, same)) = (new-eq-ok opts n).0 e in
    let rs = (with_connect_domain-counts opts).2 in
    ap (λ m. get_elem? m.orderers i) same
    ∙ network_of-orderers (with_connect_domain opts) policies i
        (subst (λ z. i < pos_part z) (sym rs) h)

pub new-orgs :
    (opts : Options) (n : Network) (i : ℕ)
    → new opts ≡ ok n
    → i < orgs_in opts
    → get_elem? n.orgs i ≡ some (new_org (1 + i))
new-orgs opts n i e h =
    let (built, (policies, computed, same)) = (new-eq-ok opts n).0 e in
    let os = (with_connect_domain-counts opts).0 in
    ap (λ m. get_elem? m.orgs i) same
    ∙ network_of-orgs (with_connect_domain opts) policies i (subst (λ z. i < pos_part z) (sym os) h)
