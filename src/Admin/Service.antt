-- ===== src/Admin/Service.antt =====
-- What internal/admin calls of its environment: the nodes, through fabric-admin-sdk and the orderers'
-- channel participation API, the project's files, and third_party/fabric. Each call takes the state
-- of the world and returns the next one.
pub mod Laws
use fabric_network_builder.Prelude.{Bool, List, Bytes, ℤ, Result}

-- An entry of collections.json.
pub record CollectionEntry : Type 0 where
  pub name : Bytes
  pub policy : Bytes
  pub required_peer_count : ℤ
  pub max_peer_count : ℤ
  pub block_to_live : ℤ
  pub member_only_read : Bool
  pub member_only_write : Bool

-- A static collection config, with the policy that was read from its text.
pub record CollectionConfig (Policy : Type 0) : Type 0 where
  pub name : Bytes
  pub member_orgs_policy : Policy
  pub required_peer_count : ℤ
  pub maximum_peer_count : ℤ
  pub block_to_live : ℤ
  pub member_only_read : Bool
  pub member_only_write : Bool

-- `chaincode.Definition` of fabric-admin-sdk.
pub record Definition (Policy : Type 0) : Type 0 where
  pub channel_name : Bytes
  pub name : Bytes
  pub version : Bytes
  pub sequence : ℤ
  pub application_policy : Policy
  pub init_required : Bool
  pub collections : List (CollectionConfig Policy)
  pub package_id : Bytes

-- A config update with the signatures on it.
pub record ConfigUpdate (Signature : Type 0) : Type 0 where
  pub config_update : Bytes
  pub signatures : List Signature

-- A reply of the orderers' Deliver stream.
pub data Delivered (Block : Type 0) : Type 0 where
  a_block : Block → Delivered Block
  a_status : ℤ → Delivered Block
  another : Delivered Block

-- What Recv returns behind the last reply.
pub data StreamEnd : Type 0 where
  eof : StreamEnd
  broken : Bytes → StreamEnd

-- The endorser's answer: the response's status, message and payload, and whether it is endorsed.
pub record Endorsement : Type 0 where
  pub status : ℤ
  pub message : Bytes
  pub payload : Bytes
  pub is_endorsed : Bool

-- A proposal, by its chaincode, its arguments and whether it is the chaincode's Init.
pub record Proposal : Type 0 where
  pub channel : Bytes
  pub chaincode : Bytes
  pub args : List Bytes
  pub init : Bool

pub record Service : Type 1 where
  pub World : Type 0
  -- An open connection to a peer, as the admin of its org, with its host and MSP ID.
  pub Conn : Type 0
  pub host : Conn → Bytes
  pub msp : Conn → Bytes
  pub Policy : Type 0
  -- The time between two attempts: it passes, or the context ends in it.
  pub wait : World → Result Bytes (Unit {0}) × World
  pub read_file : Bytes → World → Result Bytes Bytes × World
  pub new_peer_conn : ℤ → ℤ → World → Result Bytes Conn × World
  pub query_installed : Conn → World → Result Bytes (List Bytes) × World
  pub install : Conn → Bytes → World → Result Bytes Bytes × World
  pub query_committed : Conn → Bytes → Bytes → World → Result Bytes (Bytes × ℤ) × World
  pub check_commit_readiness :
      Conn → Definition Policy → World → Result Bytes (List (Bytes × Bool)) × World
  pub approve : Conn → Definition Policy → World → Result Bytes (Unit {0}) × World
  pub commit : Conn → Definition Policy → World → Result Bytes (Unit {0}) × World
  pub list_channels : Conn → World → Result Bytes (List Bytes) × World
  pub Block : Type 0
  pub join_channel : Conn → Block → World → Result Bytes (Unit {0}) × World
  -- An HTTPS client for an orderer's participation API, its reply to the list request (the status
  -- code and the status field of its body) and to a join (the status code and the body).
  pub Client : Type 0
  pub osn_client : Bytes → World → Result Bytes Client × World
  pub osn_list : Client → Bytes → Bytes → World → Result Bytes (ℤ × Result Bytes Bytes) × World
  pub osn_join : Client → Bytes → Bytes → World → Result Bytes (ℤ × Bytes) × World
  -- Pure functions of libraries: the block of its bytes, collections.json, the policy language of
  -- third_party/fabric/policydsl, and the SHA-256 of a file in hexadecimal digits.
  pub unmarshal_block : Bytes → Result Bytes Block
  pub unmarshal_collections : Bytes → Result Bytes (List CollectionEntry)
  pub policy_from_string : Bytes → Result Bytes Policy
  pub sha256_hex : Bytes → Bytes
  -- `filepath.Join`.
  pub join_path : List Bytes → Bytes
  -- `bytes.TrimSpace`.
  pub trim_space : Bytes → Bytes
  -- A gRPC connection to the first orderer, as the admin of an org, and its end.
  pub Orderer : Type 0
  pub orderer_host : Orderer → Bytes
  pub dial_orderer : ℤ → World → Result Bytes Orderer × World
  pub close_orderer : Orderer → World → World
  -- The reply to an envelope that is broadcast: its status and its info.
  pub Envelope : Type 0
  pub broadcast : Orderer → Envelope → World → Result Bytes (ℤ × Bytes) × World
  -- The replies to a seek of block 0, until Recv fails, which it does when the call times out; the
  -- flag says whether the orderer waits for the channel.
  pub deliver :
      Orderer → Bytes → Bool → World → Result Bytes (List (Delivered Block) × StreamEnd) × World
  -- The parts of an envelope file: its payload, the channel header and the data of that, the type
  -- and the channel ID of the header, and the config update of the data.
  pub Signature : Type 0
  pub unmarshal_envelope : Bytes → Result Bytes Bytes
  pub unmarshal_payload : Bytes → Result Bytes (Bytes × Bytes)
  pub unmarshal_channel_header : Bytes → Result Bytes (ℤ × Bytes)
  pub unmarshal_config_update : Bytes → Result Bytes (ConfigUpdate Signature)
  -- A signature on a config update, and an envelope around an update, by the admin.
  pub new_signature : Orderer → Bytes → World → Result Bytes Signature × World
  pub signed_envelope :
      Orderer → Bytes → ConfigUpdate Signature → World → Result Bytes Envelope × World
  -- A signed proposal of a peer's admin, with its transaction ID; the endorser's answer to it; the
  -- transaction of the answers; the signature on a request for the commit status of a transaction on a
  -- channel; and the peer's status: the code and the number of the block.
  pub Signed : Type 0
  pub tx_id : Signed → Bytes
  pub signed_proposal : Conn → Proposal → World → Result Bytes Signed × World
  pub process_proposal : Conn → Signed → World → Result Bytes Endorsement × World
  pub signed_tx : Conn → Signed → List Endorsement → World → Result Bytes Envelope × World
  pub sign_request : Conn → Bytes → Bytes → World → Result Bytes Bytes × World
  pub commit_status : Conn → Bytes → Bytes → Bytes → World → Result Bytes (ℤ × ℤ) × World
