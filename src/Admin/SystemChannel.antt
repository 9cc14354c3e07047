-- ===== src/Admin/SystemChannel.antt =====
-- internal/admin/systemchannel.go: the channel of a network whose orderers run the system channel.
pub mod Joined
pub mod Replies
use fabric_network_builder.Prelude.{
  List, [], ◌∷◌, ◌++◌, Bool, true, false, not, ◌&&◌, ◌||◌, if◌then◌else◌, Option, none, some, Bytes,
  codes, bytes_eq, ℤ, pos, eqb_ℤ, Result, ok, err,
}
use fabric_network_builder.Prelude.Decimal.{itoa}
use fabric_network_builder.Vars.{msp_id}
use fabric_network_builder.Exec.{Exec, pure, raise, handle, ◌>>=◌, ◌>>◌, for_each, deferring}
use fabric_network_builder.Admin.Service.{
  Service, ConfigUpdate, Delivered, a_block, a_status, another, StreamEnd, eof, broken,
}
use fabric_network_builder.Admin.Exec.{
  AdminError, failed, no_channel, in_file, not_config_update, other_channel, not_ordered,
  not_delivered,
}
use fabric_network_builder.Admin.Network.{
  Network, already_has, anchors_updated, channel_created, State, Admin, call, returned, printf,
  retry, path, first_index,
}
use fabric_network_builder.Admin.Install.{in_context}
use fabric_network_builder.Admin.Channel.{join_all}

-- `errors.Is(gerr, errNoChannel)`
unfoldable pub is_no_channel : AdminError → Bool
is_no_channel no_channel = true
is_no_channel e = false

-- The file's update with one signature more.
abbrev pub with_signature :
    {Signature : Type 0} → ConfigUpdate Signature → Signature → ConfigUpdate Signature
with_signature update sig = record update { signatures = update.signatures ++ (sig ∷ []) }

module _ {Block : Type 0} where
  -- The end of the stream: with a block, EOF is no failure.
  unfoldable pub at_end : Option Block → StreamEnd → Result AdminError Block
  at_end (some b) eof = ok b
  at_end none eof = err (failed (codes "EOF"))
  at_end block (broken e) = err (failed e)

  -- The switch on a status: SUCCESS behind a block, NOT_FOUND and SERVICE_UNAVAILABLE, any other.
  unfoldable pub refused : Bytes → Bytes → Bool → ℤ → Result AdminError Block
  refused host channel wait status =
      if eqb_ℤ status (pos 404) || (eqb_ℤ status (pos 503) && not wait)
      then err no_channel
      else err (not_delivered host channel status)

  unfoldable pub at_status : Bytes → Bytes → Bool → Option Block → ℤ → Result AdminError Block
  at_status host channel wait none status = refused host channel wait status
  at_status host channel wait (some b) status =
      if eqb_ℤ status (pos 200) then ok b else refused host channel wait status

  -- The loop over the replies; `block` is the last block so far.
  unfoldable pub receive :
      Bytes
      → Bytes
      → Bool
      → Option Block
      → List (Delivered Block)
      → StreamEnd
      → Result AdminError Block
  receive host channel wait block [] end = at_end block end
  receive host channel wait block (a_block b ∷ replies) end =
      receive host channel wait (some b) replies end
  receive host channel wait block (a_status status ∷ replies) end =
      at_status host channel wait block status
  receive host channel wait block (another ∷ replies) end =
      receive host channel wait block replies end

module _ {F : Service} where
  -- `defer func() { _ = o.conn.Close() }()`
  abbrev pub closing : F.Orderer → State F → State F
  closing o s = record s { world = F.close_orderer o s.world }

  -- The checks on the channel header of the file: its type is CONFIG_UPDATE, and its channel.
  unfoldable pub check_header : Bytes → Bytes → ℤ × Bytes → Admin F (Unit {0})
  check_header file channel (type, id) =
      if not (eqb_ℤ type (pos 2))
      then raise (not_config_update file type)
      else if not (bytes_eq id channel)
      then raise (other_channel file id channel)
      else pure tt

  unfoldable pub sign_config_update : Bytes → Bytes → F.Orderer → Admin F F.Envelope
  sign_config_update file channel o = do
    b ← call (F.read_file file)
    env ← in_context (in_file file) (F.unmarshal_envelope b)
    payload ← in_context (in_file file) (F.unmarshal_payload env)
    header ← in_context (in_file file) (F.unmarshal_channel_header payload.0)
    check_header file channel header
    update ← in_context (in_file file) (F.unmarshal_config_update payload.1)
    sig ← call (F.new_signature o update.config_update)
    call (F.signed_envelope o channel (with_signature update sig))

  -- Only SUCCESS is an order.
  unfoldable pub ordered_of : Bytes → ℤ × Bytes → Admin F (Unit {0})
  ordered_of host (status, info) =
      if eqb_ℤ status (pos 200) then pure tt else raise (not_ordered host status info)

  unfoldable pub broadcast : F.Orderer → F.Envelope → Admin F (Unit {0})
  broadcast o env = call (F.broadcast o env) >>= ordered_of (F.orderer_host o)

  abbrev pub settled : {A : Type 0} → Result AdminError A → Admin F A
  settled (ok a) = pure a
  settled (err e) = raise e

  unfoldable pub genesis_block : F.Orderer → Bytes → Bool → Admin F F.Block
  genesis_block o channel wait = do
    replies ← call (F.deliver o channel wait)
    settled (receive (F.orderer_host o) channel wait none replies.0 replies.1)

  -- What an attempt to create does behind the question for the channel's block.
  unfoldable pub create_missing : Network → Bytes → F.Orderer → Admin F Bool
  create_missing n channel o = do
    env ←
        sign_config_update (path F n (codes "channel-artifacts" ∷ codes "channel.tx" ∷ [])) channel
          o
    broadcast o env
    pure true

  abbrev pub when_missing : {A : Type 0} → Admin F A → AdminError → Admin F A
  when_missing m e = if is_no_channel e then m else raise e

  -- One attempt: whether it created the channel.
  unfoldable pub create_once : Network → Bytes → F.Orderer → Admin F Bool
  create_once n channel o s =
      handle (genesis_block o channel false s)
        (λ b. do printf (already_has (F.orderer_host o) channel); pure false)
        (when_missing (create_missing n channel o))

  -- `updateAnchorPeers`, once the orderer is dialed.
  unfoldable pub send_anchors : Network → Bytes → ℤ → F.Orderer → Admin F (Unit {0})
  send_anchors n channel i o = do
    env ←
        sign_config_update
          (path F n (codes "channel-artifacts" ∷ (msp_id i ++ codes "anchors.tx") ∷ [])) channel o
    retry n (codes "anchor peers of " ++ msp_id i) (broadcast o env)
    printf (anchors_updated (msp_id i))

  unfoldable pub update_anchor_peers : Network → Bytes → ℤ → Admin F (Unit {0})
  update_anchor_peers n channel i = do
    o ← call (F.dial_orderer i)
    deferring (closing o) (send_anchors n channel i o)

  -- `CreateSystemChannel`, once the orderer is dialed.
  unfoldable pub create_and_join : Network → Bytes → F.Orderer → Admin F (Unit {0})
  create_and_join n channel o = do
    created ←
        retry n (codes "create " ++ channel ++ codes " on " ++ F.orderer_host o)
          (create_once n channel o)
    block ← retry n (codes "fetch the genesis block of " ++ channel) (genesis_block o channel true)
    if created then printf (channel_created channel) else pure tt
    join_all n channel block
    if created then for_each (update_anchor_peers n channel) n.vars.org_indices else pure tt

  unfoldable pub create_system_channel : Network → Bytes → Admin F (Unit {0})
  create_system_channel n channel = do
    o ← call (F.dial_orderer (first_index n.vars.org_indices))
    deferring (closing o) (create_and_join n channel o)
