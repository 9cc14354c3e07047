-- ===== src/Admin/Install.antt =====
-- internal/admin/install.go: a chaincode is installed on the peers, approved by each org and
-- committed.
use fabric_network_builder.Prelude.{
  List, [], ◌∷◌, ◌++◌, Bool, false, ◌||◌, if◌then◌else◌, Bytes, codes, has_prefix, bytes_eq, ℤ, pos,
  wrap, ◌+ℤ◌, Result, ok, err,
}
use fabric_network_builder.Admin.Service.{Service, CollectionEntry, CollectionConfig}
use fabric_network_builder.Exec.{pure, raise, ◌>>=◌, ◌>>◌}
use fabric_network_builder.Admin.Exec.{
  AdminError, failed, bad_collections, bad_collection, bad_policy,
}
use fabric_network_builder.Admin.Network.{
  Network, already_installed, installing, is_installed, State, Admin, call, printf, retry,
  dial_peer, path, first_index,
}

pub record InstallOptions : Type 0 where
  pub channel : Bytes
  pub version : Bytes
  pub package_dir : Bytes
  pub names : List Bytes
  pub init_required : Bool

unfoldable pub chaincode_label : Bytes → Bytes → Bytes
chaincode_label name version = name ++ b'-' ∷ version

pub record PkgFile : Type 0 where
  pub label : Bytes
  pub id : Bytes
  pub bytes : Bytes

unfoldable pub has_package : List Bytes → Bytes → Bool
has_package [] id = false
has_package (c ∷ installed) id = bytes_eq c id || has_package installed id

-- `strings.Contains`
unfoldable pub contains_text : Bytes → Bytes → Bool
contains_text [] part = has_prefix [] part
contains_text (b ∷ text) part = has_prefix (b ∷ text) part || contains_text text part

unfoldable pub committed_not_defined : Bytes → Bytes → Bool
committed_not_defined text name =
    contains_text text (codes "namespace " ++ name ++ codes " is not defined")

-- `approvals[msp]`, which is false for a missing key.
unfoldable pub approval : List (Bytes × Bool) → Bytes → Bool
approval [] msp = false
approval ((m, yes?) ∷ approvals) msp = if bytes_eq msp m then yes? else approval approvals msp

abbrev pub config_of : {Policy : Type 0} → CollectionEntry → Policy → CollectionConfig Policy
config_of c policy = record {
  name = c.name;
  member_orgs_policy = policy;
  required_peer_count = c.required_peer_count;
  maximum_peer_count = c.max_peer_count;
  block_to_live = c.block_to_live;
  member_only_read = c.member_only_read;
  member_only_write = c.member_only_write;
}

unfoldable pub package_id : Service → Bytes → Bytes → Bytes
package_id F label pkg = label ++ b':' ∷ F.sha256_hex pkg

module _ {F : Service} where
  -- An error of a library, in the context that the caller adds.
  abbrev pub in_context : {A : Type 0} → (AdminError → AdminError) → Result Bytes A → Admin F A
  in_context context (ok a) = pure a
  in_context context (err e) = raise (context (failed e))

  unfoldable pub configs : List CollectionEntry → Admin F (List (CollectionConfig F.Policy))
  configs [] = pure []
  configs (c ∷ cols) = do
    policy ← in_context (bad_collection c.name) (F.policy_from_string c.policy)
    rest ← configs cols
    pure (config_of c policy ∷ rest)

  unfoldable pub collections : Network → Admin F (List (CollectionConfig F.Policy))
  collections n = do
    b ← call (F.read_file (path F n (codes "collections.json" ∷ [])))
    cols ← in_context bad_collections (F.unmarshal_collections b)
    configs cols

  unfoldable pub application_policy : Network → Admin F F.Policy
  application_policy n =
      in_context (bad_policy n.vars.endorsement_policy)
        (F.policy_from_string n.vars.endorsement_policy)

  -- One attempt to install.
  unfoldable pub install_once : F.Conn → PkgFile → Admin F (Unit {0})
  install_once p f = do
    installed ← call (F.query_installed p)
    if has_package installed f.id then printf (already_installed f.id (F.host p)) else (do
      printf (installing f.label (F.host p))
      id ← call (F.install p f.bytes)
      printf (is_installed (F.host p) id))

  unfoldable pub install_on : Network → PkgFile → ℤ → ℤ → Admin F (Unit {0})
  install_on n f i j = do
    p ← dial_peer i j
    retry n (codes "install " ++ f.label ++ codes " on " ++ F.host p) (install_once p f)

  -- What an answer of QueryCommittedWithName means for the next sequence number.
  unfoldable pub sequence_of :
      Bytes → Result Bytes (Bytes × ℤ) × F.World → State F → Result AdminError ℤ × State F
  sequence_of name (ok (version, seq), w) s = (ok (wrap (seq +ℤ pos 1)), record s { world = w })
  sequence_of name (err e, w) s =
      if committed_not_defined e name
      then (ok (pos 1), record s { world = w })
      else (err (failed e), record s { world = w })

  unfoldable pub query_sequence : F.Conn → Bytes → Bytes → Admin F ℤ
  query_sequence p channel name s = sequence_of name (F.query_committed p channel name s.world) s

  unfoldable pub next_sequence : Network → Bytes → Bytes → Admin F ℤ
  next_sequence n channel name = do
    p ← dial_peer (first_index n.vars.org_indices) (first_index n.vars.peer_indices)
    retry n (codes "query committed " ++ name ++ codes " on " ++ F.host p)
        (query_sequence p channel name)
