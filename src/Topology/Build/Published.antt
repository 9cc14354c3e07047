-- ===== src/Topology/Build/Published.antt =====
-- The host ports that an accepted network publishes do not collide.
use Prim.Native.String.{String}
use fabric_network_builder.Prelude.{
  ℕ, ◌+◌, ◌*◌, ◌/◌, ◌%◌, ◌^◌, ◌<◌, ◌≡◌, ap, ◌∙◌, sym, Option, none, some, Option-cases, inl, inr,
  List, ◌++◌, arith, length, get_elem?, lt-length_of_get_elem?, Bytes, codes, pos, pos_part, wrap,
  wrap-pos, ok,
}
use mathlib.Core.Option
use mathlib.Core.Option.{some-injective}
use fabric_network_builder.Prelude.Decimal.{
  itoa, parse_ℕ, parse_ℕ-print_ℕ, parse_ℕ-print_append, scan,
}
use fabric_network_builder.Topology.Options.{Options}
use fabric_network_builder.Topology.Policies.{num}
use fabric_network_builder.Topology.Build.{PeerPort, Network, new_org, new_orderer, new}
use fabric_network_builder.Topology.Build.Nodes.{
  orgs_in, peers_in, new-peer_ports, new-lengths, new-orderers, new-orgs,
}

-- The host ports that the network publishes: one for each orderer, one for each org's CA and two
-- for each peer, whose texts are its prefix with 51 and with 53 behind it.
pub data Slot : Type 0 where
  orderer ca peer_51 peer_53 : ℕ → Slot

abbrev suffixed : String → PeerPort → Bytes
suffixed t p = p.prefix ++ codes t

unfoldable pub published : Network → Slot → Option Bytes
published n (orderer i) = Option.map (λ o. o.host_port) (get_elem? n.orderers i)
published n (ca i) = Option.map (λ o. o.ca_port) (get_elem? n.orgs i)
published n (peer_51 k) = Option.map (suffixed "51") (get_elem? n.peer_ports k)
published n (peer_53 k) = Option.map (suffixed "53") (get_elem? n.peer_ports k)

-- The number of a slot's port.
abbrev number : Slot → ℕ
number (orderer i) = 7050 + 1000 * i
number (ca i) = 7054 + 1000 * i
number (peer_51 k) = 7051 + 1000 * k
number (peer_53 k) = 7053 + 1000 * k

number_injective : (x y : Slot) → number x ≡ number y → x ≡ y
number_injective (orderer i) (orderer j) e = ap orderer (omega arith)
number_injective (ca i) (ca j) e = ap ca (omega arith)
number_injective (peer_51 i) (peer_51 j) e = ap peer_51 (omega arith)
number_injective (peer_53 i) (peer_53 j) e = ap peer_53 (omega arith)
number_injective (orderer i) (ca j) e = absurd (omega arith)
number_injective (orderer i) (peer_51 j) e = absurd (omega arith)
number_injective (orderer i) (peer_53 j) e = absurd (omega arith)
number_injective (ca i) (orderer j) e = absurd (omega arith)
number_injective (ca i) (peer_51 j) e = absurd (omega arith)
number_injective (ca i) (peer_53 j) e = absurd (omega arith)
number_injective (peer_51 i) (orderer j) e = absurd (omega arith)
number_injective (peer_51 i) (ca j) e = absurd (omega arith)
number_injective (peer_51 i) (peer_53 j) e = absurd (omega arith)
number_injective (peer_53 i) (orderer j) e = absurd (omega arith)
number_injective (peer_53 i) (ca j) e = absurd (omega arith)
number_injective (peer_53 i) (peer_51 j) e = absurd (omega arith)

-- Every count keeps the port numbers below 2^63.
pub record IsSmall (opts : Options) : Type 0 where
  pub orderers : 7050 + 1000 * pos_part opts.orderer_count < 2 ^ 63
  pub orgs : 7054 + 1000 * orgs_in opts < 2 ^ 63
  pub peers : 70 + 10 * (orgs_in opts * peers_in opts) < 2 ^ 63

parse-num : (m : ℕ) → m < 2 ^ 63 → parse_ℕ (itoa (wrap (pos m))) ≡ some m
unfolding itoa
parse-num m h = ap (λ z. parse_ℕ (itoa z)) (wrap-pos m h) ∙ parse_ℕ-print_ℕ m

parse-suffixed :
    (m : ℕ)
    → (parse_ℕ (num m ++ codes "51") ≡ some (m * 100 + 51))
      × (parse_ℕ (num m ++ codes "53") ≡ some (m * 100 + 53))
unfolding itoa scan codes
parse-suffixed m = (
  parse_ℕ-print_append m (codes "51") ∙ ground arith,
  parse_ℕ-print_append m (codes "53") ∙ ground arith,
)

-- An index below a product, as a row and a column.
rows : (k o p : ℕ) → k < o * p → (k / p * p + k % p ≡ k) × (k / p < o) × (k % p < p)
rows k o p h = (grind arith, grind arith, grind arith)

map-some {ℓ κ} :
    {A : Type ℓ} {B : Type κ} (f : A → B) (m : Option A) (a : A) {b : B}
    → m ≡ some a
    → Option.map f m ≡ some b
    → b ≡ f a
map-some f (some x) a e h = ground arith
map-some f none a e h = cc

bound-of_map {ℓ κ} :
    {A : Type ℓ} {B : Type κ} (f : A → B) (xs : List A) (i : ℕ) {b : B}
    → Option.map f (get_elem? xs i) ≡ some b
    → i < length xs
bound-of_map f xs i h = elim (Option-cases (get_elem? xs i)) [
  | inl e ↦ absurd (ground arith)
  | inr (x, e) ↦ lt-length_of_get_elem? xs i e
]

module _ (opts : Options) (n : Network) (e : new opts ≡ ok n) (small : IsSmall opts) where
  -- The prefix of the peer entry k.
  prefix_at :
      (k : ℕ) (a : PeerPort)
      → k < orgs_in opts * peers_in opts
      → get_elem? n.peer_ports k ≡ some a
      → a.prefix ≡ num (70 + 10 * k)
  prefix_at k a h found =
      let p : ℕ = peers_in opts in
      let (same, row, column) = rows k (orgs_in opts) p h in
      let entry = new-peer_ports opts n (k / p) (k % p) e row column small.peers in
      let found' : get_elem? n.peer_ports (k / p * p + k % p) ≡ some a =
        ap (get_elem? n.peer_ports) same ∙ found in
      ap (λ b. b.prefix) (some-injective _ _ (sym found' ∙ entry))
      ∙ ap (λ m. num (70 + 10 * m)) same

  peer_slot :
      (t : String) (k : ℕ) {text : Bytes}
      → Option.map (suffixed t) (get_elem? n.peer_ports k) ≡ some text
      → text ≡ num (70 + 10 * k) ++ codes t
  peer_slot t k h = elim (Option-cases (get_elem? n.peer_ports k)) [
    | inl absent ↦ absurd (ground arith)
    | inr (a, found) ↦
        let within = lt-length_of_get_elem? n.peer_ports k found in
        let (q, r, u, v) = new-lengths opts n e in
        map-some (suffixed t) _ a found h
        ∙ ap (λ x. x ++ codes t) (prefix_at k a (omega arith) found)
  ]

  -- The text of a published port is the number of its slot.
  published-number :
      (x : Slot) {text : Bytes} → published n x ≡ some text → parse_ℕ text ≡ some (number x)
  unfolding published new_org new_orderer
  published-number (orderer i) h =
      let within = bound-of_map (λ o. o.host_port) n.orderers i h in
      let i_lt : i < pos_part opts.orderer_count = omega (arith, new-lengths opts n e) in
      ap parse_ℕ (map-some (λ o. o.host_port) _ _ (new-orderers opts n i e i_lt) h)
      ∙ parse-num (7050 + 1000 * i) (omega (arith, small.orderers))
  published-number (ca i) h =
      let within = bound-of_map (λ o. o.ca_port) n.orgs i h in
      let i_lt : i < orgs_in opts = omega (arith, new-lengths opts n e) in
      let sum : 1000 * (1 + i) + 6054 ≡ 7054 + 1000 * i = omega arith in
      ap parse_ℕ (map-some (λ o. o.ca_port) _ _ (new-orgs opts n i e i_lt) h)
      ∙ parse-num (1000 * (1 + i) + 6054) (omega (arith, small.orgs))
      ∙ ap some sum
  published-number (peer_51 k) h =
      let sum : (70 + 10 * k) * 100 + 51 ≡ 7051 + 1000 * k = omega arith in
      ap parse_ℕ (peer_slot "51" k h) ∙ (parse-suffixed (70 + 10 * k)).0 ∙ ap some sum
  published-number (peer_53 k) h =
      let sum : (70 + 10 * k) * 100 + 53 ≡ 7053 + 1000 * k = omega arith in
      ap parse_ℕ (peer_slot "53" k h) ∙ (parse-suffixed (70 + 10 * k)).1 ∙ ap some sum

  -- Two slots with the same port text are one slot.
  pub published_injective :
      (x y : Slot) (text : Bytes) → published n x ≡ some text → published n y ≡ some text → x ≡ y
  published_injective x y text hx hy =
      number_injective x y
        (some-injective _ _ (sym (published-number x hx) ∙ published-number y hy))
