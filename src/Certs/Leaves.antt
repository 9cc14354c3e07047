-- ===== src/Certs/Leaves.antt =====
-- internal/certs/certs.go: the leaf certificates of a tree, and the CA of one.
pub mod Issuer
use fabric_network_builder.Prelude.{
  ℕ, List, [], ◌∷◌, ◌++◌, Bool, true, false, not, if◌then◌else◌, Option, none, some, Bytes, codes,
  bytes_eq, ℤ, Result, ok, err,
}
use fabric_network_builder.Prelude.Sort.{sort_strings}
use fabric_network_builder.Exec.{pure, raise, either_way, ◌>>=◌, ◌>>◌, collect}
use fabric_network_builder.Certs.Environment.{Machine, Cert, StatError, FileInfo}
use fabric_network_builder.Certs.{
  CertError, failed, no_pem_data, in_file, unsupported_key, cannot_reissue, no_ca_dir, no_ca_cert,
  no_ca_key, Kind, sign_cert, tls, Action, ask, call, returned,
}

pub record LeafSpec : Type 0 where
  pub cert_glob : Bytes
  pub ca_subdir : Bytes

-- `leafSpecs`, of which nothing reads the key's pattern.
unfoldable pub leaf_spec : Kind → LeafSpec
leaf_spec sign_cert = record { cert_glob = codes "msp/signcerts/*.pem"; ca_subdir = codes "ca" }
leaf_spec tls = record { cert_glob = codes "tls/server.crt"; ca_subdir = codes "tlsca" }

unfoldable pub node_parents : List Bytes
node_parents = codes "peers" ∷ codes "orderers" ∷ codes "users" ∷ []

pub record Leaf (PublicKey Extension : Type 0) : Type 0 where
  pub cert : Cert PublicKey Extension
  pub expiry : ℤ
  pub node : Bytes
  pub org : Bytes
  pub kind : Kind
  pub cert_path : Bytes
  pub ca_dir : Bytes

-- `err == nil && fi.IsDir()`
abbrev pub is_directory : Result StatError FileInfo → Bool
is_directory (ok fi) = fi.is_dir
is_directory (err e) = false

module _ (F : Machine) where
  abbrev of_failed : {A : Type 0} → Result Bytes A → Result CertError A
  of_failed (ok a) = ok a
  of_failed (err e) = err (failed e)

  abbrev parse_block : Option (Bytes × Bytes) → Result CertError (Cert F.PublicKey F.Extension)
  parse_block none = err no_pem_data
  parse_block (some (type, der)) = of_failed (F.parse_certificate der)

  unfoldable pub parse_cert : Bytes → Result CertError (Cert F.PublicKey F.Extension)
  parse_cert b = parse_block (F.pem_decode b)

  -- The switch on the type of the block.
  unfoldable pub parse_key : Bytes → Bytes → Result Bytes F.PrivateKey
  parse_key type der =
      if bytes_eq type (codes "EC PRIVATE KEY")
      then F.parse_ec_private_key der
      else if bytes_eq type (codes "RSA PRIVATE KEY")
      then F.parse_pkcs1_private_key der
      else F.parse_pkcs8_private_key der

module _ {F : Machine} where
  abbrev pub settled : {A : Type 0} → (CertError → CertError) → Result CertError A → Action F A
  settled context (ok a) = pure a
  settled context (err e) = raise (context e)

  unfoldable pub load_cert : Bytes → Action F (Cert F.PublicKey F.Extension)
  load_cert path = do b ← call (F.read_file path); settled (in_file path) (parse_cert F b)

  abbrev signer_of : Option F.Signer → Action F F.Signer
  signer_of none = raise unsupported_key
  signer_of (some key) = pure key

  abbrev key_of : Option (Bytes × Bytes) → Action F F.Signer
  key_of none = raise no_pem_data
  key_of (some (type, der)) = do key ← returned (parse_key F type der); signer_of (F.as_signer key)

  unfoldable pub load_key : Bytes → Action F F.Signer
  load_key path = do b ← call (F.read_file path); key_of (F.pem_decode b)

  -- The first of a node's files for a kind is its leaf.
  unfoldable pub first_leaf :
      Bytes → Kind → List Bytes → Action F (List (Leaf F.PublicKey F.Extension))
  first_leaf node_dir kind [] = pure []
  first_leaf node_dir kind (path ∷ paths) = do
    c ← load_cert path
    pure (
        record {
          cert = c;
          expiry = c.not_after;
          node = F.base node_dir;
          org = F.base (F.dir (F.dir node_dir));
          kind = kind;
          cert_path = path;
          ca_dir = F.join_path (F.dir (F.dir node_dir) ∷ (leaf_spec kind).ca_subdir ∷ []);
        }
        ∷ [])

  unfoldable pub discover_kind : Bytes → Kind → Action F (List (Leaf F.PublicKey F.Extension))
  discover_kind node_dir kind = do
    certs ← call (F.glob (F.join_path (node_dir ∷ (leaf_spec kind).cert_glob ∷ [])))
    first_leaf node_dir kind (sort_strings certs)

  unfoldable pub discover_node : List Kind → Bytes → Action F (List (Leaf F.PublicKey F.Extension))
  discover_node kinds node_dir = do
    r ← ask (F.stat node_dir)
    if is_directory r then collect (discover_kind node_dir) kinds else pure []

  unfoldable pub discover_parent :
      Bytes → List Kind → Bytes → Action F (List (Leaf F.PublicKey F.Extension))
  discover_parent crypto_config kinds parent = do
    dirs ← call (
        F.glob (
          F.join_path
            (crypto_config ∷ codes "*Organizations" ∷ codes "*" ∷ parent ∷ codes "*" ∷ [])))
    collect (discover_node kinds) (sort_strings dirs)

  unfoldable pub discover : Bytes → List Kind → Action F (List (Leaf F.PublicKey F.Extension))
  discover crypto_config kinds = collect (discover_parent crypto_config kinds) node_parents

module _ (F : Machine) where
  unfoldable pub is_pair : Bytes → F.Signer → Bool
  is_pair ca_pub key = elim (F.marshal_public_key (F.public key)) [
    | ok p ↦ bytes_eq p ca_pub
    | err e ↦ false
  ]

  pub record Ca : Type 0 where
    pub cert : Cert F.PublicKey F.Extension
    pub key : F.Signer

module _ {F : Machine} where
  -- The loop over the CA's certificates: the first whose subject is the leaf's issuer.
  unfoldable pub find_ca :
      Cert F.PublicKey F.Extension → List Bytes → Action F (Option (Cert F.PublicKey F.Extension))
  find_ca leaf [] = pure none
  find_ca leaf (path ∷ paths) = do
    c ← load_cert path
    if bytes_eq c.raw_subject leaf.raw_issuer then pure (some c) else find_ca leaf paths

  -- The loop over the CA's keys: a key that cannot be read is passed over.
  unfoldable pub find_key : Bytes → List Bytes → Action F (Option F.Signer)
  find_key ca_pub [] = pure none
  find_key ca_pub (path ∷ paths) =
      either_way (load_key path)
        (λ key. if is_pair F ca_pub key then pure (some key) else find_key ca_pub paths)
        (λ e. find_key ca_pub paths)

  abbrev with_key : Bytes → Cert F.PublicKey F.Extension → Option F.Signer → Action F (Ca F)
  with_key ca_dir ca none = raise (cannot_reissue (no_ca_key ca_dir))
  with_key ca_dir ca (some key) = pure (record { cert = ca; key = key })

  -- `ResolveCA`, once the certificates are searched.
  unfoldable pub with_ca :
      Bytes → Cert F.PublicKey F.Extension → Option (Cert F.PublicKey F.Extension) → Action F (Ca F)
  with_ca ca_dir leaf none = raise (cannot_reissue (no_ca_cert ca_dir leaf.issuer))
  with_ca ca_dir leaf (some ca) = do
    ca_pub ← returned (F.marshal_public_key ca.public_key)
    keys ← call (F.glob (F.join_path (ca_dir ∷ codes "*_sk" ∷ [])))
    key ← find_key ca_pub (sort_strings keys)
    with_key ca_dir ca key

  unfoldable pub search_ca : Bytes → Cert F.PublicKey F.Extension → Action F (Ca F)
  search_ca ca_dir leaf = do
    pems ← call (F.glob (F.join_path (ca_dir ∷ codes "*.pem" ∷ [])))
    ca ← find_ca leaf (sort_strings pems)
    with_ca ca_dir leaf ca

  unfoldable pub resolve_ca : Bytes → Cert F.PublicKey F.Extension → Action F (Ca F)
  resolve_ca ca_dir leaf = do
    r ← ask (F.stat ca_dir)
    if is_directory r then search_ca ca_dir leaf else raise (cannot_reissue (no_ca_dir ca_dir))
