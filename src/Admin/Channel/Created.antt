-- ===== src/Admin/Channel/Created.antt =====
-- A success of `CreateChannel` means that every orderer is a member of the channel.
use mathlib.Core.Path.{subst}
use fabric_network_builder.Prelude.{
  Bool, true, false, ◌≡◌, Bytes, codes, bytes_eq, bytes_eq_iff, ℤ, pos, eqb_ℤ, Result, ok, err, All,
}
use fabric_network_builder.Admin.Service.{Service}
use fabric_network_builder.Admin.Service.Laws.{Laws, Answers-sharper}
use fabric_network_builder.Exec.Laws.{
  Any, Valid, weaken, >>=-Valid, pure-Valid, raise-Valid, if-Valid, run-Valid, given,
  for_each-Valid,
}
use fabric_network_builder.Vars.{orderer}
use fabric_network_builder.Admin.Network.{Network, State, channel_created, path}
use fabric_network_builder.Admin.Network.Laws.{
  progress, World, World-stable, call-Valid, printf-Valid, retry-Valid, eqb_ℤ-eq,
}
use fabric_network_builder.Vars.{channel_block}
use fabric_network_builder.Admin.Channel.{
  active_of, orderer_active, joined_of, orderer_join, join_orderer, create_on, create_channel,
}

module _ {F : Service} (W : Laws F) where
  -- The orderer is a member, when the answer is true.
  abbrev WhenTrue : Bytes → Bytes → Bool → State F → Type 0
  WhenTrue host channel b s = b ≡ true → W.IsOrdererOf host channel s.world

  active_of-Valid :
      (host channel : Bytes) (r : ℤ × Result Bytes Bytes)
      → Valid
          (progress W)
          (World W (λ w. r ≡ (pos 200, ok (codes "active")) → W.IsOrdererOf host channel w))
          (active_of r)
          (WhenTrue host channel)
  unfolding active_of
  active_of-Valid host channel (code, ok status) =
      if-Valid (eqb_ℤ code (pos 404)) (λ e. pure-Valid false (λ s h t. cc))
        (λ e.
          if-Valid (eqb_ℤ code (pos 200))
            (λ found. pure-Valid (bytes_eq status (codes "active")) (λ s h active. h (
              cc (eqb_ℤ-eq code (pos 200) found, (bytes_eq_iff status (codes "active")).0 active))))
            (λ other. raise-Valid _))
  active_of-Valid host channel (code, err e) =
      if-Valid (eqb_ℤ code (pos 404)) (λ e. pure-Valid false (λ s h t. cc))
        (λ e. if-Valid (eqb_ℤ code (pos 200)) (λ found. raise-Valid _) (λ other. raise-Valid _))

  orderer_join-Valid :
      (c : F.Client) (host channel block : Bytes)
      → W.channel_in block ≡ channel
      → Valid
          (progress W)
          Any
          (orderer_join c host block)
          (λ u. World W (W.IsOrdererOf host channel))
  unfolding orderer_join joined_of
  orderer_join-Valid c host channel block names =
      >>=-Valid (call-Valid W (W.osn_join c host block)) (λ r.
        if-Valid (eqb_ℤ r.0 (pos 201))
          (λ created. pure-Valid tt (λ s h.
            subst (λ ch. W.IsOrdererOf host ch s.world) names (h (eqb_ℤ-eq r.0 (pos 201) created))))
          (λ other. raise-Valid _))

  join_orderer-Valid :
      (c : F.Client) (host channel block : Bytes)
      → W.channel_in block ≡ channel
      → Valid
          (progress W)
          Any
          (join_orderer c host channel block)
          (λ now. World W (W.IsOrdererOf host channel))
  unfolding join_orderer orderer_active
  join_orderer-Valid c host channel block names =
      >>=-Valid
        (>>=-Valid (call-Valid W (W.osn_list c host channel)) (λ r. active_of-Valid host channel r))
        (λ active.
          if-Valid active
            (λ yes?.
              >>=-Valid (printf-Valid W (W.IsOrdererOf host channel) _ (λ s h. h yes?))
                (λ u. pure-Valid false (λ s h. h)))
            (λ no?.
              >>=-Valid
                (weaken (λ s h. tt) (λ u s h. h) (orderer_join-Valid c host channel block names))
                (λ u. pure-Valid true (λ s h. h))))

  create_on-Valid :
      (n : Network) (channel block : Bytes) (i : ℤ)
      → W.channel_in block ≡ channel
      → Valid
          (progress W)
          Any
          (create_on n channel block i)
          (λ u. World W (W.IsOrdererOf (orderer n.vars i) channel))
  unfolding create_on
  create_on-Valid n channel block i names =
      >>=-Valid (call-Valid W (W.osn_client (orderer n.vars i))) (λ c.
        >>=-Valid
          (weaken (λ s h. tt) (λ u s h. h)
            (retry-Valid W n _ (join_orderer-Valid c (orderer n.vars i) channel block names)))
          (λ now.
            if-Valid now
              (λ yes?. printf-Valid W (W.IsOrdererOf (orderer n.vars i) channel) _ (λ s h. h))
              (λ no?. pure-Valid tt (λ s h. h))))

module _ {F : Service} (W : Laws F) where
  pub create_channel-Valid :
      (n : Network) (channel : Bytes)
      → ((w : F.World) (b : Bytes)
          → (F.read_file (path F n (channel_block channel)) w).0 ≡ ok b
          → W.channel_in b ≡ channel)
      → Valid (progress W) Any (create_channel n channel) (λ u s.
        All (λ i. W.IsOrdererOf (orderer n.vars i) channel s.world) n.vars.orderer_indices)
  unfolding create_channel
  create_channel-Valid n channel names =
      >>=-Valid
        (call-Valid W (
          Answers-sharper (λ b. W.channel_in b ≡ channel) names
            (W.read_file (path F n (channel_block channel)))))
        (λ b. given (λ h.
          >>=-Valid
            (for_each-Valid n.vars.orderer_indices
              (λ i. World-stable W _ (W.orderer_stable (orderer n.vars i) channel))
              (λ i. create_on-Valid W n channel b i h))
            (λ u.
              printf-Valid W
                (λ w. All (λ i. W.IsOrdererOf (orderer n.vars i) channel w) n.vars.orderer_indices)
                (channel_created channel) (λ s h. h))))

-- When `CreateChannel` returns without an error, each orderer is a member of the channel, if the
-- channel's file holds the channel's genesis block.
pub create_channel-IsOrdererOf :
    {F : Service} (W : Laws F) (n : Network) (channel : Bytes) (s t : State F)
    → ((w : F.World) (b : Bytes)
        → (F.read_file (path F n (channel_block channel)) w).0 ≡ ok b
        → W.channel_in b ≡ channel)
    → create_channel n channel s ≡ (ok tt, t)
    → All (λ i. W.IsOrdererOf (orderer n.vars i) channel t.world) n.vars.orderer_indices
create_channel-IsOrdererOf W n channel s t names done =
    run-Valid s (create_channel-Valid W n channel names) done
