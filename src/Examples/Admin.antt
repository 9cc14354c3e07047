-- ===== src/Examples/Admin.antt =====
-- Runs of the administration on a network with one peer and one orderer.
use fabric_network_builder.Prelude.{
  length, ◌≤◌, ◌+◌, ◌≡◌, refl, [], ◌∷◌, false, arith, Bytes, codes, bytes_eq, has_prefix, pos,
  Result, ok, err, All,
}
use fabric_network_builder.Prelude.Decimal.{itoa, print_ℕ}
use fabric_network_builder.Exec.{for_each}
use fabric_network_builder.Admin.Exec.{attempts, after_failure, failed, after_attempts, AdminError}
use fabric_network_builder.Vars.{orderer}
use fabric_network_builder.Admin.Network.{
  Network, State, find_conn, printf, wait_delay, pause, retry, keep_conn, dial_peer, for_each_peer,
  for_each_org,
}
use fabric_network_builder.Admin.Network.Laws.{Peer}
use fabric_network_builder.Admin.Network.Retry.{
  no_more, again, retry-first_success, retry-exhausted, retry-bound,
}
use fabric_network_builder.Admin.Channel.{
  contains_channel, active_of, orderer_active, joined_of, orderer_join, join_orderer, create_on,
  create_channel, join_peer, join_on, join_all, join_peers,
}
use fabric_network_builder.Admin.Channel.Joined.{join_peers-IsPeerOf}
use fabric_network_builder.Admin.Channel.Created.{create_channel-IsOrdererOf}
use fabric_network_builder.Admin.Install.{
  InstallOptions, chaincode_label, has_package, contains_text, committed_not_defined, approval,
  configs, collections, application_policy, package_id, install_once, install_on, sequence_of,
  query_sequence, next_sequence,
}
use fabric_network_builder.Admin.Commit.{
  definition_of, pkg_file, try_call, approve_once, approve, all_approved, ready_once, wait_ready,
  commit_once, commit, committed_once, wait_committed, define, install_one, install,
}
use fabric_network_builder.Admin.Commit.Done.{IsInstalled, install-IsInstalled}
use fabric_network_builder.Examples.Laws.{laws}
use fabric_network_builder.Examples.Service.{empty, definition_in, the_id, service}
use fabric_network_builder.Vars.{msp_id}
use fabric_network_builder.Admin.SystemChannel.{
  is_no_channel, refused, at_end, at_status, receive, genesis_block, check_header,
  sign_config_update, ordered_of, broadcast, create_missing, create_once, send_anchors,
  update_anchor_peers, create_and_join, create_system_channel,
}
use fabric_network_builder.Admin.SystemChannel.Joined.{}
use fabric_network_builder.Admin.Invoke.{
  endorsers, check_endorsement, endorse_on, endorse_all, submit, invoke_with, invoke,
}

unfoldable pub runs : Unit {0}
unfolding codes bytes_eq has_prefix itoa print_ℕ attempts after_failure for_each find_conn printf
    wait_delay pause retry keep_conn dial_peer for_each_peer for_each_org orderer contains_channel
    active_of orderer_active joined_of orderer_join join_orderer create_on create_channel join_peer
    join_on join_all join_peers chaincode_label has_package contains_text committed_not_defined
    approval configs collections application_policy package_id install_once install_on sequence_of
    query_sequence next_sequence definition_of pkg_file try_call approve_once approve all_approved
    ready_once wait_ready commit_once commit committed_once wait_committed define install_one
    install definition_in empty is_no_channel refused at_end at_status receive genesis_block
    check_header sign_config_update ordered_of broadcast create_missing create_once send_anchors
    update_anchor_peers create_and_join create_system_channel endorsers check_endorsement endorse_on
    endorse_all submit invoke_with invoke msp_id
runs = tt

abbrev pub network : Network
network = record {
  dir = codes "d";
  retries = 5;
  vars = record {
    domain_name = codes "luther.systems";
    endorsement_policy = codes "OR()";
    org_indices = pos 1 ∷ [];
    peer_indices = pos 0 ∷ [];
    orderer_indices = pos 0 ∷ [];
  };
}

abbrev pub start : State service
start = record { conns = []; out = []; world = empty }

abbrev options : InstallOptions
options = record {
  channel = codes "c";
  version = codes "1";
  package_dir = codes "p";
  names = codes "cc" ∷ [];
  init_required = false;
}

abbrev joined_state : State service
joined_state = (join_peers network (codes "c") start).1

named : (block : Bytes) → Path (Result Bytes Bytes) (ok (codes "c")) (ok block) → block ≡ codes "c"
named block e = cc

join_peers-IsPeerOf_example :
    All
      (λ i. All (λ j. Peer laws (λ p. laws.IsPeerOf p (codes "c")) i j joined_state) (pos 0 ∷ []))
      (pos 1 ∷ [])
unfolding runs
join_peers-IsPeerOf_example =
    join_peers-IsPeerOf laws network (codes "c") start joined_state (λ w b block r u. named block u)
      refl

abbrev created_state : State service
created_state = (create_channel network (codes "c") start).1

create_channel-IsOrdererOf_example :
    All
      (λ i. laws.IsOrdererOf (orderer network.vars i) (codes "c") created_state.world)
      (pos 0 ∷ [])
unfolding runs
create_channel-IsOrdererOf_example =
    create_channel-IsOrdererOf laws network (codes "c") start created_state (λ w b r. refl) refl

abbrev installed_state : State service
installed_state = (install network options start).1

install-IsInstalled_example :
    All (λ name. IsInstalled laws network options name installed_state) (codes "cc" ∷ [])
unfolding runs
install-IsInstalled_example =
    install-IsInstalled laws network options start installed_state (λ w pkg read. refl, tt) refl

-- An action that succeeds when its own name was printed twice, by the pauses after its failures.
abbrev third_time : State service → Result AdminError Bytes × State service
third_time s =
    (elim s.out [ [] ↦ err (failed []) | l ∷ [] ↦ err (failed []) | l ∷ k ∷ ls ↦ ok [] ], s)

abbrev two_lines : State service
two_lines = (retry network (codes "step") third_time start).1

retry-first_success_example : retry network (codes "step") third_time start ≡ (ok [], two_lines)
unfolding runs
retry-first_success_example =
    retry-first_success network (codes "step") third_time 2 start two_lines two_lines []
      (again refl refl (again refl refl no_more)) refl

abbrev never : State service → Result AdminError Bytes × State service
never s = (err (failed (codes "refused")), s)

abbrev twice : Network
twice = record network { retries = 2 }

abbrev one_line : State service
one_line = (retry twice (codes "step") never start).1

retry-exhausted_example :
    retry twice (codes "step") never start
    ≡ (err (after_attempts (codes "step") 2 (failed (codes "refused"))), one_line)
unfolding runs
retry-exhausted_example =
    retry-exhausted twice (codes "step") never start one_line one_line (failed (codes "refused"))
      (again refl refl no_more) refl

-- An action that adds a package and fails.
abbrev adds : State service → Result AdminError Bytes × State service
adds s = (
  err (failed (codes "refused")),
  record s { world = record s.world { packages = the_id ∷ s.world.packages } },
)

retry-bound_example :
    length (retry network (codes "step") adds start).1.world.packages
    ≤ length start.world.packages + 5
unfolding runs
retry-bound_example =
    retry-bound network (codes "step") adds (λ s. length s.world.packages) (λ s. omega arith)
      (λ l e s. omega arith) start
