-- ===== src/Cli/Up.antt =====
-- internal/cli/cli.go: what `up` makes of the running network.
pub mod Joined
use fabric_network_builder.Prelude.{
  List, [], ◌∷◌, Bool, true, false, not, ◌&&◌, if◌then◌else◌, Bytes, codes,
}
use fabric_network_builder.Exec.{pure, raise, either_way, ◌>>=◌, ◌>>◌}
use fabric_network_builder.Vars.{channel_block}
use fabric_network_builder.Admin.Service.{Service}
use fabric_network_builder.Admin.Exec.{AdminError, unable_to_create, unable_to_join}
use fabric_network_builder.Admin.Network.{
  Network, using_system_channel, ready_for_install, Admin, printf,
}
use fabric_network_builder.Admin.Channel.{create_channel, join_peers}
use fabric_network_builder.Admin.SystemChannel.{create_system_channel}

-- `systemChannelNetwork`, from which paths of the project exist.
unfoldable pub is_system_channel_network : (List Bytes → Bool) → Bytes → Bool
is_system_channel_network exists channel =
    not (exists (channel_block channel))
    && (exists (codes "channel-artifacts" ∷ codes "genesis.block" ∷ [])
        && exists (codes "channel-artifacts" ∷ codes "channel.tx" ∷ []))

module _ {F : Service} where
  -- A step whose error is put in a context.
  abbrev pub step : (AdminError → AdminError) → Admin F (Unit {0}) → Admin F (Unit {0})
  step context m = either_way m pure (λ e. raise (context e))

  -- The two ways in which `up` makes the channel.
  unfoldable pub form_old : Network → Bytes → Admin F (Unit {0})
  form_old n channel = do
    printf (using_system_channel channel)
    step (unable_to_create channel) (create_system_channel n channel)
    printf (ready_for_install channel)

  unfoldable pub form_new : Network → Bytes → Admin F (Unit {0})
  form_new n channel = do
    step (unable_to_create channel) (create_channel n channel)
    step (unable_to_join channel) (join_peers n channel)
    printf (ready_for_install channel)

  unfoldable pub form_channel : Network → (List Bytes → Bool) → Bytes → Admin F (Unit {0})
  form_channel n exists channel =
      if is_system_channel_network exists channel then form_old n channel else form_new n channel
