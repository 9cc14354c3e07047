-- ===== src/Admin/Invoke.antt =====
-- internal/admin/invoke.go: a transaction is endorsed, ordered and committed.
pub mod Committed
pub mod Names
use fabric_network_builder.Prelude.{
  ℕ, zero, suc, ◌+◌, ◌*◌, ◌-◌, ◌^◌, List, [], ◌∷◌, ◌++◌, map, Bool, true, false, not, ◌&&◌, ◌||◌,
  ◌==◌, if◌then◌else◌, Option, none, some, Bytes, codes, cut_prefix, ℤ, pos, eqb_ℤ, ltb_ℤ, ltb,
  Result, ok, err, is_nil,
}
use fabric_network_builder.Prelude.Decimal.{is_digit, parse_ℕ}
use fabric_network_builder.Exec.{Exec, pure, raise, handle, ◌>>=◌, ◌>>◌, deferring}
use fabric_network_builder.Admin.Service.{Service, Endorsement, Proposal}
use fabric_network_builder.Admin.Exec.{
  AdminError, failed, not_endorsed, endorsement_status, commit_status_failed, not_valid,
}
use fabric_network_builder.Vars.{Vars}
use fabric_network_builder.Admin.Network.{
  Network, transaction_committed, State, Admin, call, printf, dial_peer, first_index,
}
use fabric_network_builder.Admin.SystemChannel.{closing, broadcast}

pub record PeerRef : Type 0 where
  pub org : ℤ
  pub peer : ℤ

-- `\d+` and what is behind it: the digits and the rest.
unfoldable pub span_digits : Bytes → Bytes × Bytes
span_digits [] = ([], [])
span_digits (c ∷ s) =
    let rest = span_digits s in if is_digit c then (c ∷ rest.0, rest.1) else ([], c ∷ s)

-- `(\..+)?$`: nothing, or a dot and one byte at least, none of them a newline.
unfoldable pub no_newline : Bytes → Bool
no_newline [] = true
no_newline (c ∷ s) = not (c == 10) && no_newline s

unfoldable pub is_domain : Bytes → Bool
is_domain [] = true
is_domain (c ∷ []) = false
is_domain (c ∷ d ∷ s) = (c == b'.') && no_newline (d ∷ s)

-- `strconv.Atoi` of digits, its error dropped: a number that is too large is the largest int.
unfoldable pub clip : Option ℕ → ℤ
clip none = pos 0
clip (some n) = if ltb n (2 ^ 63) then pos n else pos (2 ^ 63 - 1)

unfoldable pub org_of : Bytes → Bytes × Bytes → Option PeerRef
org_of j (i, rest) =
    if is_nil i || not (is_domain rest)
    then none
    else some (record { org = clip (parse_ℕ i); peer = clip (parse_ℕ j) })

unfoldable pub peer_of : Bytes × Bytes → Option PeerRef
peer_of (j, rest) =
    if is_nil j
    then none
    else elim (cut_prefix rest (codes ".org")) [ some s ↦ org_of j (span_digits s) | none ↦ none ]

-- `ParsePeer`; `none` is its error.
unfoldable pub parse_peer : Bytes → Option PeerRef
parse_peer s = elim (cut_prefix s (codes "peer")) [ some t ↦ peer_of (span_digits t) | none ↦ none ]

-- `ParseCtor`, on the function and the arguments of the JSON object; `none` is its error.
unfoldable pub ctor_args : Bytes → List Bytes → Option (List Bytes)
ctor_args function args =
    let all = (if is_nil function then [] else (function ∷ [])) ++ args in
    if is_nil all then none else some all

pub record InvokeOptions : Type 0 where
  pub channel : Bytes
  pub chaincode : Bytes
  pub peers : List PeerRef
  pub args : List Bytes
  pub init : Bool

abbrev first_peer : Vars → ℤ → PeerRef
first_peer v i = record { org = i; peer = first_index v.peer_indices }

-- The endorsing peers: the options', or the first peer of each org.
unfoldable pub endorsers : Vars → List PeerRef → List PeerRef
endorsers v [] = map (first_peer v) v.org_indices
endorsers v (r ∷ peers) = r ∷ peers

-- `peers[0]`; the orgs are not empty, as `ReadVars` makes sure.
abbrev pub first_ref : List PeerRef → PeerRef
first_ref [] = record { org = pos 0; peer = pos 0 }
first_ref (r ∷ peers) = r

abbrev pub proposal_of : InvokeOptions → Proposal
proposal_of o = record {
  channel = o.channel;
  chaincode = o.chaincode;
  args = o.args;
  init = o.init;
}

-- `responses[0].GetResponse().GetPayload()`
abbrev pub first_payload : List Endorsement → Bytes
first_payload [] = []
first_payload (r ∷ responses) = r.payload

module _ {F : Service} where
  -- A call whose error is put in a context.
  abbrev pub called :
      {A : Type 0} → (AdminError → AdminError) → (F.World → Result Bytes A × F.World) → Admin F A
  called context f s = handle (call f s) pure (λ e. raise (context e))

  unfoldable pub check_endorsement : Bytes → Endorsement → Admin F Endorsement
  check_endorsement host r =
      if ltb_ℤ r.status (pos 200) || not (ltb_ℤ r.status (pos 400)) || not r.is_endorsed
      then raise (endorsement_status host r.status r.message)
      else pure r

  unfoldable pub endorse_on : F.Signed → PeerRef → Admin F Endorsement
  endorse_on signed r = do
    p ← dial_peer r.org r.peer
    resp ← called (not_endorsed (F.host p)) (F.process_proposal p signed)
    check_endorsement (F.host p) resp

  unfoldable pub endorse_all : F.Signed → List PeerRef → Admin F (List Endorsement)
  endorse_all signed [] = pure []
  endorse_all signed (r ∷ peers) = do
    e ← endorse_on signed r
    es ← endorse_all signed peers
    pure (e ∷ es)

  abbrev pub check_valid : Bytes → ℤ × ℤ → Admin F (Unit {0})
  check_valid id (result, block) =
      if not (eqb_ℤ result (pos 0))
      then raise (not_valid id result)
      else printf (transaction_committed id block)

  -- The transaction is ordered, and its status asked for, while the orderer's connection is open.
  unfoldable pub submit :
      InvokeOptions → F.Conn → F.Signed → F.Envelope → F.Orderer → Admin F (Unit {0})
  submit o first signed env orderer = do
    broadcast orderer env
    sig ← call (F.sign_request first o.channel (F.tx_id signed))
    status ←
        called (commit_status_failed (F.tx_id signed))
          (F.commit_status first o.channel (F.tx_id signed) sig)
    check_valid (F.tx_id signed) status

  unfoldable pub invoke_with : Network → InvokeOptions → List PeerRef → Admin F Bytes
  invoke_with n o peers = do
    first ← dial_peer (first_ref peers).org (first_ref peers).peer
    signed ← call (F.signed_proposal first (proposal_of o))
    responses ← endorse_all signed peers
    env ← call (F.signed_tx first signed responses)
    orderer ← call (F.dial_orderer (first_ref peers).org)
    deferring (closing orderer) (submit o first signed env orderer)
    pure (first_payload responses)

  unfoldable pub invoke : Network → InvokeOptions → Admin F Bytes
  invoke n o = invoke_with n o (endorsers n.vars o.peers)
