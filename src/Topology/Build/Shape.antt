-- ===== src/Topology/Build/Shape.antt =====
-- The nodes of an accepted network: how many, with which names and host ports.
use fabric_network_builder.Prelude.{
  ℕ, zero, suc, ◌+◌, ◌*◌, ◌^◌, ◌<◌, ◌≡◌, refl, ap, ◌∙◌, sym, some, arith, length, length-map,
  get_elem?, get_elem?-map, codes, pos, pos_part,
}
use fabric_network_builder.Topology.Options.{Options}
use fabric_network_builder.Topology.Policies.{range', up_to, num, orgs_of, Policies}
use fabric_network_builder.Topology.Build.{
  peer_port, all_ports, new_org, new_orderer, orgs_list, peer_list, network_of,
}
use fabric_network_builder.Topology.Build.Ports.{all_ports-get, all_ports-length}

get-range' : (a rounds i : ℕ) → i < rounds → get_elem? (range' a rounds) i ≡ some (a + i)
unfolding range'
get-range' a zero i h = elim h [ ]
get-range' a (suc rounds) zero h = let e : a ≡ a + 0 = omega arith in ap some e
get-range' a (suc rounds) (suc i) h =
    let e : suc a + i ≡ a + suc i = omega arith in
    get-range' (suc a) rounds i (omega arith) ∙ ap some e

get-from_zero : (rounds i : ℕ) → i < rounds → get_elem? (range' 0 rounds) i ≡ some i
get-from_zero rounds i h = let e : 0 + i ≡ i = omega arith in get-range' 0 rounds i h ∙ ap some e

length-range' : (a rounds : ℕ) → length (range' a rounds) ≡ rounds
unfolding range'
length-range' a zero = refl
length-range' a (suc rounds) = ap suc (length-range' (suc a) rounds)

orgs_list-length : (opts : Options) → length (orgs_list opts) ≡ pos_part opts.org_count
unfolding orgs_list
orgs_list-length opts =
    length-map new_org (up_to 1 (orgs_of opts)) ∙ length-range' 1 _ ∙ omega arith

peer_list-length : (opts : Options) → length (peer_list opts) ≡ pos_part opts.peer_count
unfolding peer_list
peer_list-length opts = length-map num (range' 0 (pos_part opts.peer_count)) ∙ length-range' 0 _

orgs_list-get :
    (opts : Options) (i : ℕ)
    → i < pos_part opts.org_count
    → get_elem? (orgs_list opts) i ≡ some (new_org (1 + i))
unfolding orgs_list
orgs_list-get opts i h =
    get_elem?-map new_org (up_to 1 (orgs_of opts)) i (get-range' 1 _ i (omega arith))

peer_list-get :
    (opts : Options) (j : ℕ)
    → j < pos_part opts.peer_count
    → get_elem? (peer_list opts) j ≡ some (num j)
unfolding peer_list
peer_list-get opts j h =
    get_elem?-map num (range' 0 (pos_part opts.peer_count)) j (get-from_zero _ j h)

-- A network of the options, whatever its policies.
module _ (opts : Options) (policies : Policies) where
  pub network_of-peer_ports :
      (i j : ℕ)
      → i < pos_part opts.org_count
      → j < pos_part opts.peer_count
      → 70 + 10 * (pos_part opts.org_count * pos_part opts.peer_count) < 2 ^ 63
      → get_elem? (network_of opts policies).peer_ports (i * pos_part opts.peer_count + j)
        ≡ some (record {
          org = num (1 + i);
          peer = num j;
          bootstrap = codes "0";
          prefix = num (70 + 10 * (i * pos_part opts.peer_count + j));
        })
  unfolding network_of new_org
  network_of-peer_ports i j hi hj fits =
      let n : ℕ = pos_part opts.peer_count in
      let bound : 70 + 10 * (length (orgs_list opts) * length (peer_list opts)) < 2 ^ 63 =
        rw (orgs_list-length opts, peer_list-length opts) fits in
      ap (λ m. get_elem? (all_ports (orgs_list opts) (peer_list opts) (pos 70)) (i * m + j))
        (sym (peer_list-length opts))
      ∙ all_ports-get (orgs_list opts) (peer_list opts) 70 i j bound (orgs_list-get opts i hi)
          (peer_list-get opts j hj)
      ∙ ap (λ m. some (peer_port (new_org (1 + i)) (num j) (pos (70 + 10 * (i * m + j)))))
          (peer_list-length opts)

  pub network_of-orderers :
      (i : ℕ)
      → i < pos_part opts.orderer_count
      → get_elem? (network_of opts policies).orderers i ≡ some (new_orderer opts i)
  unfolding network_of
  network_of-orderers i h =
      get_elem?-map (new_orderer opts) (range' 0 (pos_part opts.orderer_count)) i
        (get-from_zero _ i h)

  pub network_of-orgs :
      (i : ℕ)
      → i < pos_part opts.org_count
      → get_elem? (network_of opts policies).orgs i ≡ some (new_org (1 + i))
  unfolding network_of
  network_of-orgs i h = orgs_list-get opts i h

  pub network_of-lengths :
      (length (network_of opts policies).orgs ≡ pos_part opts.org_count)
      × (length (network_of opts policies).peer_indices ≡ pos_part opts.peer_count)
      × (length (network_of opts policies).orderers ≡ pos_part opts.orderer_count)
      × (length (network_of opts policies).peer_ports
          ≡ pos_part opts.org_count * pos_part opts.peer_count)
  unfolding network_of
  network_of-lengths = (
    orgs_list-length opts,
    peer_list-length opts,
    length-map (new_orderer opts) _ ∙ length-range' 0 _,
    all_ports-length (orgs_list opts) (peer_list opts) (pos 70)
        ∙ rw (orgs_list-length opts, peer_list-length opts),
  )
