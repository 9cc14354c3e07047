-- ===== src/Admin/Channel.antt =====
-- internal/admin/channel.go: the orderers and the peers join a channel.
pub mod Joined
pub mod Created
use fabric_network_builder.Prelude.{
  List, [], ◌∷◌, ◌++◌, Bool, true, false, ◌||◌, if◌then◌else◌, Bytes, codes, bytes_eq, ℤ, pos,
  eqb_ℤ, Result, ok, err,
}
use fabric_network_builder.Prelude.Decimal.{itoa}
use fabric_network_builder.Admin.Service.{Service}
use fabric_network_builder.Exec.{pure, raise, ◌>>=◌, ◌>>◌, for_each}
use fabric_network_builder.Admin.Exec.{failed}
use fabric_network_builder.Vars.{orderer, channel_block}
use fabric_network_builder.Admin.Network.{
  Network, already_member, joined, channel_created, Admin, call, returned, printf, retry, dial_peer,
  path, for_each_peer,
}

-- `slices.ContainsFunc` with the test for a channel ID.
unfoldable pub contains_channel : List Bytes → Bytes → Bool
contains_channel [] channel = false
contains_channel (c ∷ chans) channel = bytes_eq c channel || contains_channel chans channel

module _ {F : Service} where
  -- The reply to the list request: no such channel, another failure, or the status in the body.
  unfoldable pub active_of : ℤ × Result Bytes Bytes → Admin F Bool
  active_of (code, body) =
      if eqb_ℤ code (pos 404)
      then pure false
      else if eqb_ℤ code (pos 200)
      then (do status ← returned body; pure (bytes_eq status (codes "active")))
      else raise (failed (codes "list channel: HTTP " ++ itoa code))

  unfoldable pub orderer_active : F.Client → Bytes → Bytes → Admin F Bool
  orderer_active c host channel = call (F.osn_list c host channel) >>= active_of

  -- Only 201 is a join.
  unfoldable pub joined_of : ℤ × Bytes → Admin F (Unit {0})
  joined_of (code, body) =
      if eqb_ℤ code (pos 201)
      then pure tt
      else raise (failed (codes "join: HTTP " ++ itoa code ++ codes ": " ++ F.trim_space body))

  unfoldable pub orderer_join : F.Client → Bytes → Bytes → Admin F (Unit {0})
  orderer_join c host block = call (F.osn_join c host block) >>= joined_of

  -- One attempt of an orderer: whether it joined now.
  unfoldable pub join_orderer : F.Client → Bytes → Bytes → Bytes → Admin F Bool
  join_orderer c host channel block = do
    active ← orderer_active c host channel
    if active
        then (do printf (already_member host channel); pure false)
        else (do orderer_join c host block; pure true)

  unfoldable pub create_on : Network → Bytes → Bytes → ℤ → Admin F (Unit {0})
  create_on n channel block i = do
    c ← call (F.osn_client (orderer n.vars i))
    now ←
        retry n (orderer n.vars i ++ codes " join " ++ channel)
          (join_orderer c (orderer n.vars i) channel block)
    if now then printf (joined (orderer n.vars i) channel) else pure tt

  unfoldable pub create_channel : Network → Bytes → Admin F (Unit {0})
  create_channel n channel = do
    block ← call (F.read_file (path F n (channel_block channel)))
    for_each (create_on n channel block) n.vars.orderer_indices
    printf (channel_created channel)

  -- One attempt of a peer.
  unfoldable pub join_peer : F.Conn → Bytes → F.Block → Admin F (Unit {0})
  join_peer p channel block = do
    chans ← call (F.list_channels p)
    if contains_channel chans channel
        then printf (already_member (F.host p) channel)
        else (do call (F.join_channel p block); printf (joined (F.host p) channel))

  unfoldable pub join_on : Network → Bytes → F.Block → ℤ → ℤ → Admin F (Unit {0})
  join_on n channel block i j = do
    p ← dial_peer i j
    retry n (F.host p ++ codes " join " ++ channel) (join_peer p channel block)

  unfoldable pub join_all : Network → Bytes → F.Block → Admin F (Unit {0})
  join_all n channel block = for_each_peer n (join_on n channel block)

  unfoldable pub join_peers : Network → Bytes → Admin F (Unit {0})
  join_peers n channel = do
    b ← call (F.read_file (path F n (channel_block channel)))
    block ← returned (F.unmarshal_block b)
    join_all n channel block
