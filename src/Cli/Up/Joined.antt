-- ===== src/Cli/Up/Joined.antt =====
-- Every peer is on the channel behind a successful `up`.
use fabric_network_builder.Prelude.{List, Bool, false, ◌≡◌, Bytes, ok, All}
use fabric_network_builder.Exec.Laws.{
  Any, Valid, IsStable, >>=-Valid, pure-Valid, raise-Valid, if-Valid, either_way-Valid, weaken,
  both, frame, run-Valid, All-stable,
}
use fabric_network_builder.Vars.{channel_block, orderer}
use fabric_network_builder.Admin.Service.{Service}
use fabric_network_builder.Admin.Service.Laws.{Laws}
use fabric_network_builder.Admin.Exec.{AdminError, unable_to_create, unable_to_join}
use fabric_network_builder.Admin.Network.{
  Network, State, Admin, Line, path, printf, using_system_channel, ready_for_install,
}
use fabric_network_builder.Admin.Network.Laws.{progress, World-stable, printf-Valid}
use fabric_network_builder.Admin.Channel.Joined.{join_peers-Valid}
use fabric_network_builder.Admin.Channel.Created.{create_channel-Valid}
use fabric_network_builder.Admin.SystemChannel.Joined.{
  PeersJoined, PeersJoined-stable, create_system_channel-Valid,
}
use fabric_network_builder.Cli.Up.{
  is_system_channel_network, step, form_old, form_new, form_channel,
}

module _ {F : Service} (W : Laws F) where
  step-Valid :
      {Q : State F → Type 0} {m : Admin F (Unit {0})} (context : AdminError → AdminError)
      → Valid (progress W) Any m (λ u. Q)
      → Valid (progress W) Any (step context m) (λ u. Q)
  step-Valid context h =
      either_way-Valid h (λ u. pure-Valid u (λ s q. q)) (λ e. raise-Valid (context e))

  prints :
      {Q : State F → Type 0} (l : Line)
      → IsStable (progress W) Q
      → Valid (progress W) Q (printf l) (λ u. Q)
  prints {Q = Q} l stable =
      weaken (λ s q. (tt, q)) (λ u s q. q.1)
        (frame {P = Any} Q stable (printf-Valid W (λ w. Unit {0}) l (λ s p. tt)))

  abbrev pub OrderersJoined : Network → Bytes → State F → Type 0
  OrderersJoined n channel s =
      All (λ i. W.IsOrdererOf (orderer n.vars i) channel s.world) n.vars.orderer_indices

  orderers_stable :
      (n : Network) (channel : Bytes) → IsStable (progress W) (OrderersJoined n channel)
  orderers_stable n channel =
      All-stable (progress W) n.vars.orderer_indices
        (λ i. World-stable W _ (W.orderer_stable (orderer n.vars i) channel))

  form_old-Valid :
      (n : Network) (channel : Bytes)
      → Valid (progress W) Any (form_old n channel) (λ u. PeersJoined W n channel)
  unfolding form_old
  form_old-Valid n channel = >>=-Valid (prints (using_system_channel channel) (λ s t l q. tt)) (λ u.
      >>=-Valid (step-Valid (unable_to_create channel) (create_system_channel-Valid W n channel))
        (λ u. prints (ready_for_install channel) (PeersJoined-stable W n channel)))

  -- What the file of the channel's genesis block holds, whenever it is read.
  abbrev pub IsBlockFile : Network → Bytes → Type 0
  IsBlockFile n channel =
      (w : F.World) (b : Bytes)
      → (F.read_file (path F n (channel_block channel)) w).0 ≡ ok b
      → (W.channel_in b ≡ channel)
        × ((block : F.Block) → F.unmarshal_block b ≡ ok block → W.channel_of block ≡ channel)

  form_new-Valid :
      (n : Network) (channel : Bytes)
      → IsBlockFile n channel
      → Valid
          (progress W)
          Any
          (form_new n channel)
          (λ u s. PeersJoined W n channel s × OrderersJoined n channel s)
  unfolding form_new
  form_new-Valid n channel file =
      both (λ u. orderers_stable n channel)
        (step-Valid (unable_to_create channel)
          (create_channel-Valid W n channel (λ w b read. (file w b read).0)))
        (λ u.
          >>=-Valid
            (step-Valid (unable_to_join channel)
              (join_peers-Valid W n channel (λ w b block read e. (file w b read).1 block e)))
            (λ u. prints (ready_for_install channel) (PeersJoined-stable W n channel)))
        (λ u v s peers orderers. (peers, orderers))

  form_channel-Valid :
      (n : Network) (exists : List Bytes → Bool) (channel : Bytes)
      → IsBlockFile n channel
      → Valid (progress W) Any (form_channel n exists channel) (λ u s.
        PeersJoined W n channel s
        × (is_system_channel_network exists channel ≡ false → OrderersJoined n channel s))
  unfolding form_channel
  form_channel-Valid n exists channel file =
      if-Valid (is_system_channel_network exists channel)
        (λ e. weaken (λ s p. p) (λ u s q. (q, λ e'. cc (e, e'))) (form_old-Valid n channel))
        (λ e. weaken (λ s p. p) (λ u s q. (q.0, λ e'. q.1)) (form_new-Valid n channel file))

-- When the steps of `up` behind the start of the nodes succeed, on either way to make the channel,
-- the network has a connection to each peer of each org and that peer is a member of the channel, and
-- on a network without the orderer system channel each orderer is a member, if the channel's file
-- holds the channel's genesis block whenever it is read.
pub form_channel-PeersJoined :
    {F : Service} (W : Laws F) (n : Network) (exists : List Bytes → Bool) (channel : Bytes)
    (s t : State F)
    → IsBlockFile W n channel
    → form_channel n exists channel s ≡ (ok tt, t)
    → PeersJoined W n channel t
      × (is_system_channel_network exists channel ≡ false → OrderersJoined W n channel t)
form_channel-PeersJoined W n exists channel s t file done =
    run-Valid s (form_channel-Valid W n exists channel file) done
