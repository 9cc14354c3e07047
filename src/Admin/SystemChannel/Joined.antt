-- ===== src/Admin/SystemChannel/Joined.antt =====
-- A success of `CreateSystemChannel` means that every peer is a member of the channel.
use fabric_network_builder.Prelude.{
  List, [], ◌∷◌, Bool, true, false, not, ◌&&◌, ◌||◌, if◌then◌else◌, bytes_eq, Option, none, some,
  ◌≡◌, Bytes, ℤ, pos, eqb_ℤ, Result, ok, err, All,
}
use fabric_network_builder.Exec.Laws.{
  Any, IsStable, Valid, handle-Outcome, weaken, >>=-Valid, pure-Valid, raise-Valid, if-Valid,
  run-Valid, given, for_each-Valid, deferring-Valid, both, All-stable,
}
use fabric_network_builder.Admin.Service.{
  Service, Delivered, a_block, a_status, another, StreamEnd, eof, broken,
}
use fabric_network_builder.Admin.Service.Laws.{Laws, Delivers}
use fabric_network_builder.Admin.Exec.{
  AdminError, no_channel, not_delivered, not_config_update, other_channel, in_file, not_ordered,
}
use fabric_network_builder.Admin.Network.{Network, State, channel_created, Admin, first_index}
use fabric_network_builder.Admin.Network.Laws.{
  progress, World, Peer, Peer-stable, call-Valid, retry-Valid, eqb_ℤ-eq,
}
use fabric_network_builder.Admin.Channel.Joined.{join_all-Valid}
use fabric_network_builder.Admin.Commit.Moves.{calls, says, moved, in_context-Moves}
use fabric_network_builder.Admin.SystemChannel.{
  closing, with_signature, check_header, sign_config_update, ordered_of, broadcast, at_end, refused,
  at_status, receive, is_no_channel, settled, genesis_block, create_missing, when_missing,
  create_once, send_anchors, update_anchor_peers, create_and_join, create_system_channel,
}

-- What the loop over the replies returns is a block that was delivered.
module _ {Block : Type 0} (P : Block → Type 0) where
  abbrev Held : Option Block → Type 0
  Held none = Unit
  Held (some b) = P b

  abbrev Returned : Result AdminError Block → Type 0
  Returned (ok b) = P b
  Returned (err e) = Unit

  at_end-Returned :
      (block : Option Block) (end : StreamEnd) → Held block → Returned (at_end block end)
  unfolding at_end
  at_end-Returned none eof h = tt
  at_end-Returned none (broken e) h = tt
  at_end-Returned (some b) eof h = h
  at_end-Returned (some b) (broken e) h = tt

  if-Returned :
      (b : Bool) (r r' : Result AdminError Block)
      → Returned r
      → Returned r'
      → Returned (if b then r else r')
  if-Returned true r r' h h' = h
  if-Returned false r r' h h' = h'

  refused-Returned :
      (host channel : Bytes) (wait : Bool) (status : ℤ)
      → Returned (refused host channel wait status)
  unfolding refused
  refused-Returned host channel wait status =
      if-Returned (eqb_ℤ status (pos 404) || (eqb_ℤ status (pos 503) && not wait)) (err no_channel)
        (err (not_delivered host channel status)) tt tt

  at_status-Returned :
      (host channel : Bytes) (wait : Bool) (block : Option Block) (status : ℤ)
      → Held block
      → Returned (at_status host channel wait block status)
  unfolding at_status
  at_status-Returned host channel wait none status h = refused-Returned host channel wait status
  at_status-Returned host channel wait (some b) status h =
      if-Returned (eqb_ℤ status (pos 200)) (ok b) (refused host channel wait status) h
        (refused-Returned host channel wait status)

  receive-Returned :
      (host channel : Bytes) (wait : Bool) (block : Option Block) (replies : List (Delivered Block))
      (end : StreamEnd)
      → Held block
      → Delivers P replies
      → Returned (receive host channel wait block replies end)
  unfolding receive
  receive-Returned host channel wait block [] end h d = at_end-Returned block end h
  receive-Returned host channel wait block (a_block b ∷ replies) end h (p, d) =
      receive-Returned host channel wait (some b) replies end p d
  receive-Returned host channel wait block (a_status status ∷ replies) end h d =
      at_status-Returned host channel wait block status h
  receive-Returned host channel wait block (another ∷ replies) end h d =
      receive-Returned host channel wait block replies end h d

module _ {F : Service} (W : Laws F) where
  abbrev Moves : {A : Type 0} → Admin F A → Type 0
  Moves m = Valid (progress W) Any m (λ a. Any)

  settled-Valid :
      (P : F.Block → Type 0) (r : Result AdminError F.Block)
      → Returned P r
      → Valid (progress W) Any (settled r) (λ b s. P b)
  settled-Valid P (ok b) h = pure-Valid b (λ s p. h)
  settled-Valid P (err e) h = raise-Valid e

  genesis_block-Valid :
      (o : F.Orderer) (channel : Bytes) (wait : Bool)
      → Valid (progress W) Any (genesis_block o channel wait) (λ b s. W.channel_of b ≡ channel)
  unfolding genesis_block
  genesis_block-Valid o channel wait = >>=-Valid (call-Valid W (W.deliver o channel wait)) (λ r.
      record {
        run = λ s d.
            (settled-Valid (λ b. W.channel_of b ≡ channel) _
                (receive-Returned (λ b. W.channel_of b ≡ channel) (F.orderer_host o) channel wait
                  none r.0 r.1 tt d)).run
              s tt;
      })

  check_header-Moves :
      (file channel : Bytes) (h : ℤ × Bytes)
      → Valid (progress W) Any (check_header file channel h) (λ u. Any)
  unfolding check_header
  check_header-Moves file channel (type, id) =
      if-Valid (not (eqb_ℤ type (pos 2))) (λ e. raise-Valid (not_config_update file type))
        (λ e.
          if-Valid (not (bytes_eq id channel)) (λ e'. raise-Valid (other_channel file id channel))
            (λ e'. pure-Valid tt (λ s p. tt)))

  sign_config_update-Moves :
      (file channel : Bytes) (o : F.Orderer) → Moves (sign_config_update file channel o)
  unfolding sign_config_update
  sign_config_update-Moves file channel o = >>=-Valid (calls W (W.read_file file)) (λ b.
      >>=-Valid (in_context-Moves W (in_file file) (F.unmarshal_envelope b)) (λ env.
        >>=-Valid (in_context-Moves W (in_file file) (F.unmarshal_payload env)) (λ payload.
          >>=-Valid (in_context-Moves W (in_file file) (F.unmarshal_channel_header payload.0))
            (λ header. >>=-Valid (check_header-Moves file channel header) (λ u.
              >>=-Valid (in_context-Moves W (in_file file) (F.unmarshal_config_update payload.1))
                (λ update.
                  >>=-Valid (calls W (W.new_signature o update.config_update))
                    (λ sig. calls W (W.signed_envelope o channel (with_signature update sig)))))))))

  pub closed : (o : F.Orderer) (s : State F) → (progress W).Later s (closing o s)
  closed o s = (W.close_orderer o s.world, λ k c e. e)

  pub broadcast-Valid :
      (o : F.Orderer) (env : F.Envelope)
      → Valid (progress W) Any (broadcast o env) (λ u. World W (W.IsOrdered env))
  unfolding broadcast ordered_of
  broadcast-Valid o env = >>=-Valid (call-Valid W (W.broadcast o env)) (λ r.
      if-Valid (eqb_ℤ r.0 (pos 200))
        (λ success. pure-Valid tt (λ s h. h (eqb_ℤ-eq r.0 (pos 200) success)))
        (λ other. raise-Valid (not_ordered (F.orderer_host o) r.0 r.1)))

  create_missing-Moves :
      (n : Network) (channel : Bytes) (o : F.Orderer) → Moves (create_missing n channel o)
  unfolding create_missing
  create_missing-Moves n channel o =
      >>=-Valid (sign_config_update-Moves _ channel o)
        (λ env. >>=-Valid (moved W (broadcast-Valid o env)) (λ u. pure-Valid true (λ s p. tt)))

  when_missing-Moves :
      {A : Type 0} {m : Admin F A} (s : State F)
      → Moves m
      → (e : AdminError) → Valid (progress W) ((progress W).Later s) (when_missing m e) (λ a. Any)
  when_missing-Moves s h e =
      if-Valid (is_no_channel e) (λ missing. weaken (λ t l. tt) (λ a t q. q) h)
        (λ other. raise-Valid e)

  create_once-Moves :
      (n : Network) (channel : Bytes) (o : F.Orderer) → Moves (create_once n channel o)
  unfolding create_once
  create_once-Moves n channel o = record {
    run = λ s p.
        handle-Outcome {L = progress W} (λ b t. Unit {0}) (λ b t. Unit {0}) _ _ s
          (genesis_block o channel false s)
          ((moved W (genesis_block-Valid o channel false)).run s tt)
          (λ b. >>=-Valid (says W _) (λ u. pure-Valid false (λ s p. tt)))
          (when_missing-Moves s (create_missing-Moves n channel o));
  }

  send_anchors-Moves :
      (n : Network) (channel : Bytes) (i : ℤ) (o : F.Orderer) → Moves (send_anchors n channel i o)
  unfolding send_anchors
  send_anchors-Moves n channel i o =
      >>=-Valid (sign_config_update-Moves _ channel o)
        (λ env. >>=-Valid (retry-Valid W n _ (moved W (broadcast-Valid o env))) (λ u. says W _))

  update_anchor_peers-Moves :
      (n : Network) (channel : Bytes) (i : ℤ) → Moves (update_anchor_peers n channel i)
  unfolding update_anchor_peers
  update_anchor_peers-Moves n channel i = >>=-Valid (calls W (W.dial_orderer i)) (λ o.
      deferring-Valid (closing o) (closed o) (λ a s t l q. tt) (send_anchors-Moves n channel i o))

  -- Each peer of each org is a member.
  abbrev pub PeersJoined : Network → Bytes → State F → Type 0
  PeersJoined n channel s =
      All (λ i. All (λ j. Peer W (λ p. W.IsPeerOf p channel) i j s) n.vars.peer_indices)
        n.vars.org_indices

  pub PeersJoined-stable :
      (n : Network) (channel : Bytes) → IsStable (progress W) (PeersJoined n channel)
  PeersJoined-stable n channel = All-stable (progress W) n.vars.org_indices (λ i.
      All-stable (progress W) n.vars.peer_indices
        (Peer-stable W (λ p. W.IsPeerOf p channel) (λ p. W.peer_stable p channel) i))

  create_and_join-Valid :
      (n : Network) (channel : Bytes) (o : F.Orderer)
      → Valid (progress W) Any (create_and_join n channel o) (λ u. PeersJoined n channel)
  unfolding create_and_join
  create_and_join-Valid n channel o =
      >>=-Valid (retry-Valid W n _ (create_once-Moves n channel o)) (λ created.
        >>=-Valid (retry-Valid W n _ (genesis_block-Valid o channel true)) (λ block. given (λ names.
          >>=-Valid
            (if-Valid created (λ e. says W (channel_created channel))
              (λ e. pure-Valid tt (λ s p. tt)))
            (λ u.
              both (λ v. PeersJoined-stable n channel) (join_all-Valid W n channel block names)
                (λ v.
                  if-Valid created
                    (λ e. moved W (
                      for_each-Valid {Q = λ i s. Unit {0}} n.vars.org_indices (λ i s t l q. tt)
                        (update_anchor_peers-Moves n channel)))
                    (λ e. pure-Valid tt (λ s p. tt)))
                (λ v w s r q. q)))))

module _ {F : Service} (W : Laws F) where
  pub create_system_channel-Valid :
      (n : Network) (channel : Bytes)
      → Valid (progress W) Any (create_system_channel n channel) (λ u. PeersJoined W n channel)
  unfolding create_system_channel
  create_system_channel-Valid n channel =
      >>=-Valid (calls W (W.dial_orderer (first_index n.vars.org_indices))) (λ o.
        deferring-Valid (closing o) (closed W o) (λ u. PeersJoined-stable W n channel)
          (create_and_join-Valid W n channel o))

-- When `CreateSystemChannel` returns without an error, the network has a connection to each peer of
-- each org, and that peer is a member of the channel.
pub create_system_channel-PeersJoined :
    {F : Service} (W : Laws F) (n : Network) (channel : Bytes) (s t : State F)
    → create_system_channel n channel s ≡ (ok tt, t)
    → PeersJoined W n channel t
create_system_channel-PeersJoined W n channel s t done =
    run-Valid s (create_system_channel-Valid W n channel) done
