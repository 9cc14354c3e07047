-- ===== src/Topology/Build/Ports.antt =====
-- The host ports of the peers and orderers.
use fabric_network_builder.Prelude.{
  ℕ, zero, suc, ◌+◌, ◌*◌, ◌^◌, ◌<◌, ◌≡◌, refl, ap, ◌∙◌, sym, some, List, [], ◌∷◌, arith, length,
  length-append, get_elem?, get_elem?-append_left, get_elem?-append_right, lt-length_of_get_elem?,
  Bytes, ℤ, pos, wrap, wrap-pos, ◌+ℤ◌,
}
use fabric_network_builder.Topology.Build.{Org, peer_port, next_prefix, org_ports, all_ports}

next_prefix-pos : (p : ℕ) → p + 10 < 2 ^ 63 → next_prefix (pos p) ≡ pos (p + 10)
unfolding ◌+ℤ◌
next_prefix-pos p h = ap wrap (ground arith) ∙ wrap-pos (p + 10) h

org_ports-next :
    (org : Org) (js : List Bytes) (p : ℕ)
    → p + 10 * length js < 2 ^ 63
    → (org_ports org js (pos p)).1 ≡ pos (p + 10 * length js)
unfolding org_ports
org_ports-next org [] p h = ground arith
org_ports-next org (j ∷ js) p h =
    ap (λ q. (org_ports org js q).1) (next_prefix-pos p (omega arith))
    ∙ org_ports-next org js (p + 10) (omega arith)
    ∙ ap pos (omega arith)

org_ports-length : (org : Org) (js : List Bytes) (p : ℤ) → length (org_ports org js p).0 ≡ length js
unfolding org_ports
org_ports-length org [] p = refl
org_ports-length org (j ∷ js) p = ap suc (org_ports-length org js (next_prefix p))

org_ports-get :
    (org : Org) (js : List Bytes) (p j : ℕ) {peer : Bytes}
    → p + 10 * length js < 2 ^ 63
    → get_elem? js j ≡ some peer
    → get_elem? (org_ports org js (pos p)).0 j ≡ some (peer_port org peer (pos (p + 10 * j)))
unfolding org_ports
org_ports-get org [] p j h e = ground arith
org_ports-get org (k ∷ js) p zero {peer} h e =
    let here : k ≡ peer = ground arith in
    let same : p ≡ p + 10 * 0 = omega arith in
    ap (λ k'. some (peer_port org k' (pos p))) here
    ∙ ap (λ q. some (peer_port org peer (pos q))) same
org_ports-get org (k ∷ js) p (suc j) {peer} h e =
    let moved : p + 10 + 10 * j ≡ p + 10 * suc j = omega arith in
    ap (λ q. get_elem? (org_ports org js q).0 j) (next_prefix-pos p (omega arith))
    ∙ org_ports-get org js (p + 10) j (omega arith) e
    ∙ ap (λ q. some (peer_port org peer (pos q))) moved

pub all_ports-length :
    (orgs : List Org) (js : List Bytes) (p : ℤ)
    → length (all_ports orgs js p) ≡ length orgs * length js
unfolding all_ports
all_ports-length [] js p = omega arith
all_ports-length (org ∷ orgs) js p = omega (
  arith,
  length-append (org_ports org js p).0 (all_ports orgs js (org_ports org js p).1),
  org_ports-length org js p,
  all_ports-length orgs js (org_ports org js p).1,
)

pub all_ports-get :
    (orgs : List Org) (js : List Bytes) (p i j : ℕ) {org : Org} {peer : Bytes}
    → p + 10 * (length orgs * length js) < 2 ^ 63
    → get_elem? orgs i ≡ some org
    → get_elem? js j ≡ some peer
    → get_elem? (all_ports orgs js (pos p)) (i * length js + j)
      ≡ some (peer_port org peer (pos (p + 10 * (i * length js + j))))
unfolding all_ports
all_ports-get [] js p i j h e e' = ground arith
all_ports-get (o ∷ orgs) js p zero j {org} {peer} h e e' =
    let fits : p + 10 * length js < 2 ^ 63 = grind arith in
    let within : j < length (org_ports o js (pos p)).0 =
      omega (arith, org_ports-length o js (pos p), lt-length_of_get_elem? js j e') in
    let index : 0 * length js + j ≡ j = omega arith in
    let same : o ≡ org = ground arith in
    ap (get_elem? (all_ports (o ∷ orgs) js (pos p))) index
    ∙ get_elem?-append_left _ _ j within
    ∙ org_ports-get o js p j fits e'
    ∙ ap (λ q. some (peer_port q peer (pos (p + 10 * j)))) same
    ∙ ap (λ q. some (peer_port org peer (pos (p + 10 * q)))) (sym index)
all_ports-get (o ∷ orgs) js p (suc i) j {org} {peer} h e e' =
    let n : ℕ = length js in
    let m : ℕ = i * n + j in
    let fits : p + 10 * n < 2 ^ 63 = grind arith in
    let rest_fits : p + 10 * n + 10 * (length orgs * n) < 2 ^ 63 = grind arith in
    let index : suc i * n + j ≡ length (org_ports o js (pos p)).0 + m =
      omega (arith, org_ports-length o js (pos p)) in
    let moved : p + 10 * n + 10 * m ≡ p + 10 * (suc i * n + j) = omega arith in
    ap (get_elem? (all_ports (o ∷ orgs) js (pos p))) index
    ∙ get_elem?-append_right (org_ports o js (pos p)).0 _ m
    ∙ ap (λ q. get_elem? (all_ports orgs js q) m) (org_ports-next o js p fits)
    ∙ all_ports-get orgs js (p + 10 * n) i j rest_fits e e'
    ∙ ap (λ q. some (peer_port org peer (pos q))) moved
