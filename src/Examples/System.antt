-- ===== src/Examples/System.antt =====
-- Runs of the system channel, of a transaction and of `up` on the network with one peer.
use fabric_network_builder.Prelude.{
  List, Bool, true, ℕ, none, some, ◌≡◌, refl, [], ◌∷◌, false, Bytes, codes, pos, Result, ok, err,
}
use fabric_network_builder.Admin.Network.{State}
use fabric_network_builder.Admin.Network.Retry.{}
use fabric_network_builder.Admin.Channel.{}
use fabric_network_builder.Admin.Install.{}
use fabric_network_builder.Admin.Commit.{}
use fabric_network_builder.Examples.Laws.{laws}
use fabric_network_builder.Examples.Service.{empty, service}
use fabric_network_builder.Admin.Service.{Service, a_block, a_status, another, eof}
use fabric_network_builder.Admin.SystemChannel.{receive, create_system_channel}
use fabric_network_builder.Admin.SystemChannel.Joined.{
  PeersJoined, create_system_channel-PeersJoined,
}
use fabric_network_builder.Admin.SystemChannel.Replies.{verdict, receive-eq-verdict}
use fabric_network_builder.Admin.Invoke.{InvokeOptions, invoke}
use fabric_network_builder.Admin.Invoke.Committed.{IsInvoked, invoke-IsInvoked}
use fabric_network_builder.Examples.Admin.{runs, network, start}
use fabric_network_builder.Cli.Up.{is_system_channel_network, form_old, form_new, form_channel}
use fabric_network_builder.Cli.Up.Joined.{OrderersJoined, form_channel-PeersJoined}

-- The channel is new: it is created, the peer joins, and the anchor peers are updated.
abbrev system_state : State service
system_state = (create_system_channel network (codes "c") start).1

create_system_channel-PeersJoined_example : PeersJoined laws network (codes "c") system_state
unfolding runs
create_system_channel-PeersJoined_example =
    create_system_channel-PeersJoined laws network (codes "c") start system_state refl

receive-eq-verdict_example :
    receive {Block = ℕ}
      (codes "o")
      (codes "c")
      true
      none
      (another ∷ a_block 1 ∷ a_block 2 ∷ a_status (pos 200) ∷ [])
      eof
    ≡ verdict (codes "o") (codes "c") true (some 2) eof (some (pos 200))
receive-eq-verdict_example =
    receive-eq-verdict (codes "o") (codes "c") true
      (another ∷ a_block 1 ∷ a_block 2 ∷ a_status (pos 200) ∷ []) eof

abbrev transaction : InvokeOptions
transaction = record {
  channel = codes "c";
  chaincode = codes "cc";
  peers = [];
  args = [];
  init = true;
}

abbrev invoked_state : State service
invoked_state = (invoke network transaction start).1

invoke-IsInvoked_example :
    IsInvoked laws transaction (record { org = pos 1; peer = pos 0 } ∷ []) invoked_state
unfolding runs
invoke-IsInvoked_example =
    invoke-IsInvoked laws network transaction start invoked_state (codes "done") refl

-- The orderer takes each envelope, and the reply is lost.
abbrev lossy : Service
lossy = record service {
  broadcast = λ o env w. (err (codes "timeout"), record w { ordered = env ∷ w.ordered });
}

abbrev lossy_start : State lossy
lossy_start = record { conns = []; out = []; world = empty }

-- The second attempt finds the channel, so the command succeeds and sends no anchor peer update: the
-- channel's transaction is all that was ordered.
lost_reply :
    ((create_system_channel network (codes "c") lossy_start).0 ≡ ok tt)
    × ((create_system_channel network (codes "c") lossy_start).1.world.ordered ≡ [] ∷ [])
unfolding runs
lost_reply = (refl, refl)

-- A project with the channel's genesis block.
abbrev exists : List Bytes → Bool
exists names = true

abbrev up_state : State service
up_state = (form_channel network exists (codes "c") start).1

named_block :
    (block : Bytes) → Path (Result Bytes Bytes) (ok (codes "c")) (ok block) → block ≡ codes "c"
named_block block e = cc

form_channel-PeersJoined_example :
    PeersJoined laws network (codes "c") up_state
    × (is_system_channel_network exists (codes "c") ≡ false
        → OrderersJoined laws network (codes "c") up_state)
unfolding runs is_system_channel_network form_old form_new form_channel
form_channel-PeersJoined_example =
    form_channel-PeersJoined laws network exists (codes "c") start up_state
      (λ w b read. (refl, λ block u. named_block block u)) refl
