-- ===== src/Vars/Read/Complete.antt =====
-- Variables that `ReadVars` returns are complete.
use mathlib.Core.Path.{subst}
use fabric_network_builder.Prelude.{List, [], false, ◌≡◌, ◌≢◌, Bytes, ok, >>=-eq-ok, is_nil, arith}
use fabric_network_builder.Vars.{Vars}
use fabric_network_builder.Vars.Read.{
  read_lines, with_orderer, check_vars, no_vars, raw_lines, read_vars,
}

-- No list and no text is empty.
abbrev pub IsComplete : Vars → Type 0
IsComplete v =
    (v.domain_name ≢ [])
    × (v.endorsement_policy ≢ [])
    × (v.org_indices ≢ [])
    × (v.peer_indices ≢ [])
    × (v.orderer_indices ≢ [])

is_nil-false {ℓ} : {A : Type ℓ} (xs : List A) → is_nil xs ≡ false → xs ≢ []
is_nil-false xs h e = ground (arith, h, e)

with_orderer-orderers : (v : Vars) → (with_orderer v).orderer_indices ≢ []
unfolding with_orderer
with_orderer-orderers v = λ e. ground (arith, e)

check_vars-IsComplete : (v w : Vars) → v.orderer_indices ≢ [] → check_vars v ≡ ok w → IsComplete w
unfolding check_vars
check_vars-IsComplete v w h e =
    let accepted : (v ≡ w)
        × (is_nil v.domain_name ≡ false)
        × (is_nil v.org_indices ≡ false)
        × (is_nil v.peer_indices ≡ false)
        × (is_nil v.endorsement_policy ≡ false) =
      ground (arith, e) in
    subst IsComplete accepted.0 (
      is_nil-false _ accepted.1,
      is_nil-false _ accepted.4,
      is_nil-false _ accepted.2,
      is_nil-false _ accepted.3,
      h,
    )

-- The variables that `ReadVars` returns have a domain name, an endorsement policy, and at least one
-- org, peer and orderer index.
pub read_vars-IsComplete : (b : Bytes) (v : Vars) → read_vars b ≡ ok v → IsComplete v
unfolding read_vars
read_vars-IsComplete b v e =
    let (u, read, checked) =
      >>=-eq-ok (read_lines no_vars (raw_lines b)) (λ v. check_vars (with_orderer v)) e in
    check_vars-IsComplete (with_orderer u) v (with_orderer-orderers u) checked
