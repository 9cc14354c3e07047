-- ===== src/Vars.antt =====
-- internal/network/vars.go: the variables of a generated network, its names and its paths.
pub mod Read
use fabric_network_builder.Prelude.{List, [], ◌∷◌, ◌++◌, Bytes, codes, ℤ, pos}
use fabric_network_builder.Prelude.Decimal.{itoa}

pub record Vars : Type 0 where
  pub domain_name : Bytes
  pub endorsement_policy : Bytes
  pub org_indices : List ℤ
  pub peer_indices : List ℤ
  pub orderer_indices : List ℤ

unfoldable pub org_name : Vars → ℤ → Bytes
org_name v i = codes "org" ++ itoa i ++ b'.' ∷ v.domain_name

unfoldable pub msp_id : ℤ → Bytes
msp_id i = codes "Org" ++ itoa i ++ codes "MSP"

unfoldable pub peer_name : Vars → ℤ → ℤ → Bytes
peer_name v i j = codes "peer" ++ itoa j ++ b'.' ∷ org_name v i

unfoldable pub orderer : Vars → ℤ → Bytes
orderer v i = codes "orderer" ++ itoa i ++ b'.' ∷ v.domain_name

-- Paths, as the elements that `filepath.Join` joins.
unfoldable pub peer_tls_root : Vars → ℤ → ℤ → List Bytes
peer_tls_root v i j =
    codes "crypto-config"
    ∷ codes "peerOrganizations"
    ∷ org_name v i
    ∷ codes "peers"
    ∷ peer_name v i j
    ∷ codes "tls"
    ∷ codes "ca.crt"
    ∷ []

unfoldable pub org_admin_dir : Vars → ℤ → List Bytes
org_admin_dir v i =
    codes "crypto-config"
    ∷ codes "peerOrganizations"
    ∷ org_name v i
    ∷ codes "users"
    ∷ (codes "Admin@" ++ org_name v i)
    ∷ []

unfoldable pub orderer_tls_root : Vars → List Bytes
orderer_tls_root v =
    codes "crypto-config"
    ∷ codes "ordererOrganizations"
    ∷ v.domain_name
    ∷ codes "orderers"
    ∷ orderer v (pos 0)
    ∷ codes "msp"
    ∷ codes "tlscacerts"
    ∷ (codes "tlsca." ++ v.domain_name ++ codes "-cert.pem")
    ∷ []

unfoldable pub orderer_admin_dir : Vars → List Bytes
orderer_admin_dir v =
    codes "crypto-config"
    ∷ codes "ordererOrganizations"
    ∷ v.domain_name
    ∷ codes "users"
    ∷ (codes "Admin@" ++ v.domain_name)
    ∷ []

unfoldable pub channel_block : Bytes → List Bytes
channel_block channel = codes "channel-artifacts" ∷ (channel ++ codes ".block") ∷ []
