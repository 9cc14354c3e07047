-- ===== src/Topology/Policies/Vanity.antt =====
-- The private structure `nchoose2common,NAMES`.
use mathlib.Core.Path.{subst}
use mathlib.Core.List.{Memᴰ}
use fabric_network_builder.Prelude.{
  ℕ, zero, suc, ◌*◌, ◌-◌, ◌<◌, ◌≡◌, ◌≢◌, refl, sym, ap, ◌∙◌, List, [], ◌∷◌, ◌++◌, append_assoc,
  arith, true, false, length, get_elem?, some, All, Lacks, Bytes, codes, has_prefix,
  has_prefix-append, split, join, split-join, ℤ, pos, pos_part, eqb_ℤ, ok, err, Bool-cases, inl,
  inr,
}
use fabric_network_builder.Prelude.Decimal.{itoa}
use fabric_network_builder.Topology.Options.{Options, improper_vanity_list}
use fabric_network_builder.Topology.Policies.{
  Collection, Policies, members, pairs, or_empty, vanity_name, collection, vanity_collection,
  orgs_of, vanity_policies, common_policies, compute_policies,
}
use fabric_network_builder.Topology.Policies.Pairs.{PairOf, length-pairs, Mem-pairs, All-pairs}
use fabric_network_builder.Topology.Policies.Collections.{org_member, IsMembers, members-IsMembers}

abbrev word : Bytes
word = codes "nchoose2common"

word-Lacks : Lacks b',' word
unfolding codes
word-Lacks = omega arith

-- The option's value: the word and the names, with commas between them.
abbrev pub vanity_structure : List Bytes → Bytes
vanity_structure names = codes "nchoose2common," ++ join names (b',' ∷ [])

structure-join :
    (q : Bytes) (names : List Bytes)
    → vanity_structure (q ∷ names) ≡ join (word ∷ q ∷ names) (b',' ∷ [])
unfolding codes join
structure-join q names = refl

compute_policies-common :
    (n : Options) (q : Bytes) (names : List Bytes)
    → n.private_structure ≡ vanity_structure (q ∷ names)
    → All (Lacks b',') (q ∷ names)
    → compute_policies n ≡ common_policies n (q ∷ names)
unfolding compute_policies
compute_policies-common n q names e h =
    let parts : split n.private_structure b',' ≡ word ∷ q ∷ names =
      ap (λ s. split s b',') (e ∙ structure-join q names)
      ∙ split-join word (q ∷ names) b',' (word-Lacks, h) in
    let starts : has_prefix n.private_structure (codes "nchoose2common,") ≡ true =
      ap (λ s. has_prefix s (codes "nchoose2common,")) e ∙ has_prefix-append _ _ in
    simp (starts, parts)

eqb-true : (a b : ℤ) → a ≡ b → eqb_ℤ a b ≡ true
eqb-true a b e = ground arith

eqb-false : (a b : ℤ) → a ≢ b → eqb_ℤ a b ≡ false
eqb-false a b h = elim (Bool-cases (eqb_ℤ a b)) [
  | inl same ↦ absurd (h (ground arith))
  | inr differ ↦ differ
]

get_elem?-or_empty :
    (xs : List Bytes) (i : ℕ) → i < length xs → get_elem? xs i ≡ some (or_empty (get_elem? xs i))
get_elem?-or_empty [] i h = elim h [ ]
get_elem?-or_empty (x ∷ xs) zero h = refl
get_elem?-or_empty (x ∷ xs) (suc i) h = get_elem?-or_empty xs i (omega arith)

-- The collection of orgs i and j, whose names stand at i - 1 and j - 1: its name, and the policy
-- that a member of the first org or of either satisfies.
pub record IsForNames (vanity : List Bytes) (i j : ℕ) (c : Collection) : Type 0 where
  pub left : Bytes
  pub right : Bytes
  pub left_name : get_elem? vanity (i - 1) ≡ some left
  pub right_name : get_elem? vanity (j - 1) ≡ some right
  pub name : c.name ≡ left ++ (codes "_" ++ right)
  pub policy :
      c.policy
      ≡ codes "OR("
        ++ (join (org_member 1 ∷ org_member i ∷ org_member j ∷ []) (codes ",") ++ codes ")")

vanity_collection-IsForNames :
    (n : Options) (vanity : List Bytes) (q : PairOf 2 (length vanity))
    → IsForNames vanity q.low q.high (vanity_collection n vanity q.low q.high)
unfolding vanity_collection vanity_name collection codes join itoa
vanity_collection-IsForNames n vanity q = record {
  left = or_empty (get_elem? vanity (q.low - 1));
  right = or_empty (get_elem? vanity (q.high - 1));
  left_name = get_elem?-or_empty vanity (q.low - 1) (omega (arith, q.above, q.apart, q.below));
  right_name = get_elem?-or_empty vanity (q.high - 1) (omega (arith, q.above, q.apart, q.below));
  name = refl;
  policy = simp append_assoc;
}

-- With a name for each org, and no comma in a name, the structure is accepted; the endorsement policy
-- asks for a member of the first org, or members of two of the others, with a member of each; there
-- are as many collections as pairs of the orgs after the first, each such pair has a collection with
-- the two orgs' names and a policy that a member of either or of the first org satisfies, and each
-- collection is one of a pair.
pub compute_policies-vanity :
    (n : Options) (q : Bytes) (names : List Bytes)
    → n.private_structure ≡ vanity_structure (q ∷ names)
    → All (Lacks b',') (q ∷ names)
    → pos (length (q ∷ names)) ≡ n.org_count
    → (p : Policies) × (compute_policies n ≡ ok p)
      × ((s : Bytes) × IsMembers 2 (length (q ∷ names)) s
          × (p.endorsement_policy ≡ codes "Or('Org1MSP.member', OutOf(2, " ++ (s ++ codes "))")))
      × (2 * length p.collections ≡ length names * (length names - 1))
      × ((r : PairOf 2 (length (q ∷ names)))
          → (c : Collection) × Memᴰ c p.collections × IsForNames (q ∷ names) r.low r.high c)
      × All
          (λ c. (r : PairOf 2 (length (q ∷ names))) × IsForNames (q ∷ names) r.low r.high c)
          p.collections
unfolding common_policies vanity_policies
compute_policies-vanity n q names e h fits =
    let made = vanity_collection n (q ∷ names) in
    let to : ℕ = length (q ∷ names) in
    let orgs : orgs_of n ≡ to = ap pos_part (sym fits) in
    let same : pairs made 2 (orgs_of n) ≡ pairs made 2 to = ap (pairs made 2) orgs in
    let count : suc to - 2 ≡ length names = omega arith in
    (
      vanity_policies n (q ∷ names),
      compute_policies-common n q names e h ∙ rw (eqb-true _ _ fits),
      (members n 2, subst (λ k. IsMembers 2 k (members n 2)) orgs (members-IsMembers n 2), refl),
      ap (λ cs. 2 * length cs) same
          ∙ length-pairs made 2 to (omega arith)
          ∙ ap (λ (k : ℕ). k * (k - 1)) count,
      λ r. (
        made r.low r.high,
        subst (Memᴰ (made r.low r.high)) (sym same) (Mem-pairs made 2 to r),
        vanity_collection-IsForNames n (q ∷ names) r,
      ),
      subst (All (λ c. (r : PairOf 2 to) × IsForNames (q ∷ names) r.low r.high c)) (sym same) (
          All-pairs made 2 to (λ c. (r : PairOf 2 to) × IsForNames (q ∷ names) r.low r.high c)
            (λ r. (r, vanity_collection-IsForNames n (q ∷ names) r))),
    )

-- With another number of names the structure is refused.
pub compute_policies-vanity_error :
    (n : Options) (q : Bytes) (names : List Bytes)
    → n.private_structure ≡ vanity_structure (q ∷ names)
    → All (Lacks b',') (q ∷ names)
    → pos (length (q ∷ names)) ≢ n.org_count
    → compute_policies n ≡ err improper_vanity_list
unfolding common_policies
compute_policies-vanity_error n q names e h wrong =
    compute_policies-common n q names e h ∙ rw (eqb-false _ _ wrong)
