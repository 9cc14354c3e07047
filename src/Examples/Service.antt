-- ===== src/Examples/Service.antt =====
-- A network with one peer and one orderer, of which the environment is a ledger.
use fabric_network_builder.Admin.Service.{Delivered, a_block, a_status, eof}
use fabric_network_builder.Prelude.{
  List, [], ◌∷◌, ◌++◌, true, if◌then◌else◌, Bytes, codes, bytes_eq, ℤ, pos, Result, ok, err, All,
}
use fabric_network_builder.Admin.Service.{Service}

pub data In {A : Type 0} (x : A) : List A → Type 0 where
  here : {xs : List A} → In x (x ∷ xs)
  there : {y : A} {xs : List A} → In x xs → In x (y ∷ xs)

pub All-In : {A : Type 0} (xs : List A) → All (λ x. In x xs) xs
All-In {A = A} xs = shifted xs (λ x i. i)
  where
    shifted : {zs : List A} (ys : List A) → ((x : A) → In x ys → In x zs) → All (λ x. In x zs) ys
    shifted [] f = tt
    shifted (y ∷ ys) f = (f y here, shifted ys (λ x i. f x (there i)))

-- What the peer and the orderer hold.
pub record Ledger : Type 0 where
  pub packages : List Bytes
  pub definitions : List (Bytes × Bytes × ℤ)
  pub channels : List Bytes
  pub orderer_channels : List Bytes
  pub ordered : List Bytes
  pub endorsed : List Bytes
  pub committed : List Bytes

unfoldable pub empty : Ledger
empty = record {
  packages = [];
  definitions = [];
  channels = [];
  orderer_channels = [];
  ordered = [];
  endorsed = [];
  committed = [];
}

-- The first definition of the chaincode; the text is that of the peer.
unfoldable pub definition_in : Bytes → List (Bytes × Bytes × ℤ) → Result Bytes (Bytes × ℤ)
definition_in name [] = err (codes "namespace " ++ name ++ codes " is not defined")
definition_in name ((m, version, seq) ∷ ds) =
    if bytes_eq m name then ok (version, seq) else definition_in name ds

abbrev pub ask : {A : Type 0} → A → Ledger → Result Bytes A × Ledger
ask a w = (ok a, w)

-- The ID of the one package.
abbrev pub the_id : Bytes
the_id = codes "cc-1:00"

-- The replies on a channel, which is there once something was ordered.
abbrev pub delivered : Bytes → List Bytes → List (Delivered Bytes)
delivered channel [] = a_status (pos 404) ∷ []
delivered channel (e ∷ es) = a_block channel ∷ a_status (pos 200) ∷ []

abbrev pub service : Service
service = record {
  World = Ledger;
  Conn = Unit {0};
  host = λ p. codes "peer0.org1";
  msp = λ p. codes "Org1MSP";
  Policy = Bytes;
  wait = ask tt;
  read_file = λ p. ask p;
  new_peer_conn = λ i j. ask tt;
  query_installed = λ p w. (ok w.packages, w);
  install = λ p pkg w. (ok the_id, record w { packages = the_id ∷ w.packages });
  query_committed = λ p channel name w. (definition_in name w.definitions, w);
  check_commit_readiness = λ p def. ask ((codes "Org1MSP", true) ∷ []);
  approve = λ p def. ask tt;
  commit = λ p def w.
      (ok tt, record w { definitions = (def.name, def.version, def.sequence) ∷ w.definitions });
  list_channels = λ p w. (ok w.channels, w);
  Block = Bytes;
  join_channel = λ p block w. (ok tt, record w { channels = block ∷ w.channels });
  Client = Unit {0};
  osn_client = λ host. ask tt;
  osn_list = λ c host channel. ask (pos 404, ok []);
  osn_join = λ c host block w.
      (ok (pos 201, []), record w { orderer_channels = codes "c" ∷ w.orderer_channels });
  unmarshal_block = λ b. ok (codes "c");
  unmarshal_collections = λ b. ok [];
  policy_from_string = λ b. ok b;
  sha256_hex = λ b. codes "00";
  join_path = λ names. [];
  trim_space = λ b. b;
  Orderer = Unit {0};
  orderer_host = λ o. codes "orderer0";
  dial_orderer = λ i. ask tt;
  close_orderer = λ o w. w;
  Envelope = Bytes;
  broadcast = λ o env w. (ok (pos 200, []), record w { ordered = env ∷ w.ordered });
  deliver = λ o channel wait w. (ok (delivered channel w.ordered, eof), w);
  Signature = Bytes;
  unmarshal_envelope = λ b. ok b;
  unmarshal_payload = λ b. ok (b, b);
  unmarshal_channel_header = λ b. ok (pos 2, codes "c");
  unmarshal_config_update = λ b. ok (record { config_update = b; signatures = [] });
  new_signature = λ o update. ask update;
  signed_envelope = λ o channel update. ask update.config_update;
  Signed = Bytes;
  tx_id = λ tx. tx;
  signed_proposal = λ p proposal. ask proposal.chaincode;
  process_proposal = λ p tx w. (
    ok (record { status = pos 200; message = []; payload = codes "done"; is_endorsed = true }),
    record w { endorsed = tx ∷ w.endorsed },
  );
  signed_tx = λ p tx rs. ask tx;
  sign_request = λ p channel tx. ask tx;
  commit_status =
      λ p channel tx sig w. (ok (pos 0, pos 7), record w { committed = tx ∷ w.committed });
}
