-- ===== src/Admin/Channel/Joined.antt =====
-- A success of `JoinPeers` or `CreateChannel` means that every node is a member of the channel.
use mathlib.Core.Path.{subst}
use fabric_network_builder.Prelude.{
  List, [], ◌∷◌, true, ◌≡◌, Bytes, bytes_eq, bytes_eq_iff, ok, All, Bool-cases, inl, inr, arith,
}
use fabric_network_builder.Admin.Service.{Service}
use fabric_network_builder.Admin.Service.Laws.{Laws, Answers-sharper}
use fabric_network_builder.Exec.Laws.{Any, Valid, weaken, >>=-Valid, if-Valid, run-Valid, given}
use fabric_network_builder.Admin.Network.{Network, State, path}
use fabric_network_builder.Admin.Network.Laws.{
  progress, World, Peer, Peer-stable, call-Valid, returned-Valid, printf-Valid, dialed-Valid,
  for_each_peer-Valid,
}
use fabric_network_builder.Vars.{channel_block}
use fabric_network_builder.Admin.Channel.{
  contains_channel, join_peer, join_on, join_all, join_peers,
}

contains_channel-All :
    (P : Bytes → Type 0) (chans : List Bytes) (channel : Bytes)
    → contains_channel chans channel ≡ true
    → All P chans
    → P channel
unfolding contains_channel
contains_channel-All P [] channel e h = ground arith
contains_channel-All P (c ∷ chans) channel e (p, ps) = elim (Bool-cases (bytes_eq c channel)) [
  | inl same ↦ subst P ((bytes_eq_iff c channel).0 same) p
  | inr differ ↦ contains_channel-All P chans channel (ground arith) ps
]

module _ {F : Service} (W : Laws F) where
  join_peer-Valid :
      (p : F.Conn) (channel : Bytes) (block : F.Block)
      → W.channel_of block ≡ channel
      → Valid (progress W) Any (join_peer p channel block) (λ u. World W (W.IsPeerOf p channel))
  unfolding join_peer
  join_peer-Valid p channel block names = >>=-Valid (call-Valid W (W.list_channels p)) (λ chans.
      if-Valid (contains_channel chans channel)
        (λ member.
          printf-Valid W (W.IsPeerOf p channel) _
            (λ s. contains_channel-All (λ c. W.IsPeerOf p c s.world) chans channel member))
        (λ new.
          >>=-Valid (weaken (λ s h. tt) (λ u s h. h) (call-Valid W (W.join_channel p block))) (λ u.
            printf-Valid W (W.IsPeerOf p channel) _
              (λ s. subst (λ c. W.IsPeerOf p c s.world) names))))

  pub join_all-Valid :
      (n : Network) (channel : Bytes) (block : F.Block)
      → W.channel_of block ≡ channel
      → Valid (progress W) Any (join_all n channel block) (λ u s.
        All
          (λ i. All (λ j. Peer W (λ p. W.IsPeerOf p channel) i j s) n.vars.peer_indices)
          n.vars.org_indices)
  unfolding join_all join_on
  join_all-Valid n channel block names =
      for_each_peer-Valid W
        (Peer-stable W (λ p. W.IsPeerOf p channel) (λ p. W.peer_stable p channel))
        (λ i j.
          dialed-Valid W (λ p. W.IsPeerOf p channel) n _ i j
            (λ p. join_peer-Valid p channel block names))
        n

module _ {F : Service} (W : Laws F) where
  pub join_peers-Valid :
      (n : Network) (channel : Bytes)
      → ((w : F.World) (b : Bytes) (block : F.Block)
          → (F.read_file (path F n (channel_block channel)) w).0 ≡ ok b
          → F.unmarshal_block b ≡ ok block
          → W.channel_of block ≡ channel)
      → Valid (progress W) Any (join_peers n channel) (λ u s.
        All
          (λ i. All (λ j. Peer W (λ p. W.IsPeerOf p channel) i j s) n.vars.peer_indices)
          n.vars.org_indices)
  unfolding join_peers
  join_peers-Valid n channel names =
      >>=-Valid
        (call-Valid W (
          Answers-sharper
            (λ b. (block : F.Block) → F.unmarshal_block b ≡ ok block → W.channel_of block ≡ channel)
            (λ w b read block. names w b block read)
            (W.read_file (path F n (channel_block channel)))))
        (λ b. given (λ h.
          >>=-Valid (returned-Valid W (F.unmarshal_block b))
            (λ block. given (λ e. join_all-Valid W n channel block (h block e)))))

-- When `JoinPeers` returns without an error, the network has a connection to each peer of each org,
-- and that peer is a member of the channel, if the block in the channel's file is the one of the
-- channel.
pub join_peers-IsPeerOf :
    {F : Service} (W : Laws F) (n : Network) (channel : Bytes) (s t : State F)
    → ((w : F.World) (b : Bytes) (block : F.Block)
        → (F.read_file (path F n (channel_block channel)) w).0 ≡ ok b
        → F.unmarshal_block b ≡ ok block
        → W.channel_of block ≡ channel)
    → join_peers n channel s ≡ (ok tt, t)
    → All
        (λ i. All (λ j. Peer W (λ p. W.IsPeerOf p channel) i j t) n.vars.peer_indices)
        n.vars.org_indices
join_peers-IsPeerOf W n channel s t names done =
    run-Valid s (join_peers-Valid W n channel names) done
