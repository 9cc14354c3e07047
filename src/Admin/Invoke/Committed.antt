-- ===== src/Admin/Invoke/Committed.antt =====
-- A success of `Invoke` means that the endorsing peers endorsed the transaction and that it is
-- committed as valid.
use fabric_network_builder.Prelude.{
  List, [], ◌∷◌, true, not, ◌||◌, ◌≡◌, Bytes, ℤ, pos, eqb_ℤ, ltb_ℤ, Result, ok, All, arith,
}
use fabric_network_builder.Exec.{pure, ◌>>=◌, ◌>>◌, deferring}
use fabric_network_builder.Exec.Laws.{
  Any, IsStable, Valid, handle-Outcome, both, >>=-Valid, pure-Valid, raise-Valid, if-Valid,
  run-Valid, deferring-Valid, All-stable,
}
use fabric_network_builder.Admin.Service.{Service, Endorsement}
use fabric_network_builder.Admin.Service.Laws.{Laws, Answers}
use fabric_network_builder.Admin.Exec.{
  AdminError, not_endorsed, endorsement_status, commit_status_failed, not_valid,
}
use fabric_network_builder.Admin.Network.{Network, State, call, transaction_committed}
use fabric_network_builder.Admin.Network.Laws.{
  progress, World, World-stable, Peer, Peer-stable, call-Valid, printf-Valid, dial_peer-Valid,
  eqb_ℤ-eq,
}
use fabric_network_builder.Admin.Commit.Moves.{calls, moved}
use fabric_network_builder.Admin.SystemChannel.{closing}
use fabric_network_builder.Admin.SystemChannel.Joined.{closed, broadcast-Valid}
use fabric_network_builder.Admin.Invoke.{
  PeerRef, InvokeOptions, endorsers, first_ref, proposal_of, first_payload, called,
  check_endorsement, endorse_on, endorse_all, check_valid, submit, invoke_with, invoke,
}

module _ {F : Service} (W : Laws F) where
  called-Valid :
      {A : Type 0} {Q : A → F.World → Type 0} {f : F.World → Result Bytes A × F.World}
      (context : AdminError → AdminError)
      → Answers W.progress f Q
      → Valid (progress W) Any (called context f) (λ a. World W (Q a))
  called-Valid {Q = Q} {f = f} context h = record {
    run = λ s p.
        handle-Outcome {L = progress W} (λ a. World W (Q a)) (λ a. World W (Q a)) pure _ s
          (call f s) ((call-Valid W h).run s tt) (λ a. pure-Valid a (λ t q. q))
          (λ e. raise-Valid (context e));
  }

  check_endorsement-Valid :
      (p : F.Conn) (signed : F.Signed) (r : Endorsement)
      → Valid
          (progress W)
          (World W (λ w. r.is_endorsed ≡ true → W.HasEndorsed p signed w))
          (check_endorsement (F.host p) r)
          (λ e. World W (W.HasEndorsed p signed))
  unfolding check_endorsement
  check_endorsement-Valid p signed r =
      if-Valid (ltb_ℤ r.status (pos 200) || not (ltb_ℤ r.status (pos 400)) || not r.is_endorsed)
        (λ bad. raise-Valid (endorsement_status (F.host p) r.status r.message))
        (λ good. pure-Valid r (λ s h. h (ground (arith, good))))

  -- The peer endorsed.
  abbrev pub Endorsed : F.Signed → PeerRef → State F → Type 0
  Endorsed signed r = Peer W (λ p. W.HasEndorsed p signed) r.org r.peer

  Endorsed-stable : (signed : F.Signed) (r : PeerRef) → IsStable (progress W) (Endorsed signed r)
  Endorsed-stable signed r =
      Peer-stable W (λ p. W.HasEndorsed p signed) (λ p. W.endorsed_stable p signed) r.org r.peer

  endorse_on-Valid :
      (signed : F.Signed) (r : PeerRef)
      → Valid (progress W) Any (endorse_on signed r) (λ e. Endorsed signed r)
  unfolding endorse_on
  endorse_on-Valid signed r =
      both (λ c s t l e. l.1 _ c e) (dial_peer-Valid W r.org r.peer)
        (λ p.
          >>=-Valid (called-Valid (not_endorsed (F.host p)) (W.process_proposal p signed))
            (λ e. check_endorsement-Valid p signed e))
        (λ p e s h found. (p, found, h))

  endorse_all-Valid :
      (signed : F.Signed) (peers : List PeerRef)
      → Valid
          (progress W)
          Any
          (endorse_all signed peers)
          (λ es s. All (λ r. Endorsed signed r s) peers)
  unfolding endorse_all
  endorse_all-Valid signed [] = pure-Valid [] (λ s p. tt)
  endorse_all-Valid signed (r ∷ peers) =
      both (λ e. Endorsed-stable signed r) (endorse_on-Valid signed r)
        (λ e. >>=-Valid (endorse_all-Valid signed peers) (λ es. pure-Valid (e ∷ es) (λ s h. h)))
        (λ e es s rest first. (first, rest))

  check_valid-Valid :
      (P : F.World → Type 0) (id : Bytes) (status : ℤ × ℤ)
      → Valid
          (progress W)
          (World W (λ w. status.0 ≡ pos 0 → P w))
          (check_valid id status)
          (λ u. World W P)
  check_valid-Valid P id (result, block) =
      if-Valid (not (eqb_ℤ result (pos 0))) (λ bad. raise-Valid (not_valid id result))
        (λ good.
          printf-Valid W P (transaction_committed id block)
            (λ s h. h (eqb_ℤ-eq result (pos 0) (ground (arith, good)))))

  submit-Valid :
      (o : InvokeOptions) (first : F.Conn) (signed : F.Signed) (env : F.Envelope)
      (orderer : F.Orderer)
      → Valid
          (progress W)
          Any
          (submit o first signed env orderer)
          (λ u. World W (W.HasCommitted first o.channel (F.tx_id signed)))
  unfolding submit
  submit-Valid o first signed env orderer =
      >>=-Valid (moved W (broadcast-Valid W orderer env)) (λ u.
        >>=-Valid (calls W (W.sign_request first o.channel (F.tx_id signed))) (λ sig.
          >>=-Valid
            (called-Valid (commit_status_failed (F.tx_id signed))
              (W.commit_status first o.channel (F.tx_id signed) sig))
            (λ status. check_valid-Valid _ (F.tx_id signed) status)))

  -- One transaction was endorsed by each of the peers, and the first of them committed it.
  abbrev pub IsInvoked : InvokeOptions → List PeerRef → State F → Type 0
  IsInvoked o peers s = record {
    signed : F.Signed;
    endorsed : All (λ r. Endorsed signed r s) peers;
    committed :
        Peer W (λ p. W.HasCommitted p o.channel (F.tx_id signed)) (first_ref peers).org
          (first_ref peers).peer s;
  }

  -- What is left behind the endorsements.
  order-Valid :
      (o : InvokeOptions) (first : F.Conn) (signed : F.Signed) (i : ℤ) (rs : List Endorsement)
      → Valid
          (progress W)
          Any
          (call (F.signed_tx first signed rs) >>= λ env. call (F.dial_orderer i) >>= λ orderer.
            deferring (closing orderer) (submit o first signed env orderer)
            >> pure (first_payload rs))
          (λ b. World W (W.HasCommitted first o.channel (F.tx_id signed)))
  order-Valid o first signed i rs = >>=-Valid (calls W (W.signed_tx first signed rs)) (λ env.
      >>=-Valid (calls W (W.dial_orderer i)) (λ orderer.
        >>=-Valid
          (deferring-Valid (closing orderer) (closed W orderer)
            (λ u. World-stable W _ (W.committed_stable first o.channel (F.tx_id signed)))
            (submit-Valid o first signed env orderer))
          (λ u. pure-Valid (first_payload rs) (λ s h. h))))

  invoke_with-Valid :
      (n : Network) (o : InvokeOptions) (peers : List PeerRef)
      → Valid (progress W) Any (invoke_with n o peers) (λ b. IsInvoked o peers)
  unfolding invoke_with
  invoke_with-Valid n o peers =
      both
        {R = λ first b s. record {
          0 : F.Signed;
          1 : All (λ r. Endorsed «0» r s) peers;
          2 : W.HasCommitted first o.channel (F.tx_id «0») s.world;
        }}
        (λ c s t l e. l.1 _ c e) (dial_peer-Valid W (first_ref peers).org (first_ref peers).peer)
        (λ first. >>=-Valid (calls W (W.signed_proposal first (proposal_of o))) (λ signed.
          both (λ es. All-stable (progress W) peers (Endorsed-stable signed))
            (endorse_all-Valid signed peers)
            (λ es. order-Valid o first signed (first_ref peers).org es)
            (λ es b s c e. (signed, e, c))))
        (λ first b s r found. record {
          signed = r.0;
          endorsed = r.1;
          committed = (first, found, r.2);
        })

-- When `Invoke` returns without an error, there is one transaction of the channel that each of the
-- endorsing peers (the options' peers, or the first peer of each org) endorsed, and that the first of
-- them committed as valid.
pub invoke-IsInvoked :
    {F : Service} (W : Laws F) (n : Network) (o : InvokeOptions) (s t : State F) (payload : Bytes)
    → invoke n o s ≡ (ok payload, t)
    → IsInvoked W o (endorsers n.vars o.peers) t
unfolding invoke
invoke-IsInvoked W n o s t payload done =
    run-Valid s (invoke_with-Valid W n o (endorsers n.vars o.peers)) done
