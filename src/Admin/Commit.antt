-- ===== src/Admin/Commit.antt =====
-- internal/admin/install.go: the definition is approved by each org and committed, and `Install`.
pub mod Done
pub mod Steps
pub mod Moves
use fabric_network_builder.Prelude.{
  List, [], ◌∷◌, ◌++◌, Bool, true, false, not, ◌&&◌, if◌then◌else◌, Bytes, codes, bytes_eq, ℤ,
  eqb_ℤ, Result, ok, err,
}
use fabric_network_builder.Admin.Service.{Service, CollectionConfig, Definition}
use fabric_network_builder.Exec.{pure, raise, ◌>>=◌, ◌>>◌, for_each}
use fabric_network_builder.Admin.Exec.{AdminError, failed, not_approved, not_committed}
use fabric_network_builder.Admin.Network.{
  Network, next_sequence_number, already_approved, approving, approved, readiness_confirmed,
  already_committed, committing, definition_committed, query_successful, all_good, State, Admin,
  call, printf, retry, dial_peer, path, first_index, for_each_peer, for_each_org,
}
use fabric_network_builder.Admin.Install.{
  InstallOptions, chaincode_label, PkgFile, package_id, approval, collections, application_policy,
  install_on, next_sequence,
}

-- `rerr == nil && approvals[msp]`
abbrev pub approved_by : Bytes → Result Bytes (List (Bytes × Bool)) → Bool
approved_by msp (ok approvals) = approval approvals msp
approved_by msp (err e) = false

-- `qerr == nil && res.GetSequence() == def.Sequence`
abbrev pub committed_at : ℤ → Result Bytes (Bytes × ℤ) → Bool
committed_at sequence (ok (version, seq)) = eqb_ℤ seq sequence
committed_at sequence (err e) = false

-- The definition of a chaincode of the options.
unfoldable pub definition_of :
    {Policy : Type 0}
    → InstallOptions
    → Policy
    → List (CollectionConfig Policy)
    → Bytes
    → ℤ
    → Bytes
    → Definition Policy
definition_of o policy cols chaincode seq id = record {
  channel_name = o.channel;
  name = chaincode;
  version = o.version;
  sequence = seq;
  application_policy = policy;
  init_required = o.init_required;
  collections = cols;
  package_id = id;
}

-- The file of a package.
abbrev pub package_path : Service → InstallOptions → Bytes → Bytes
package_path F o label = F.join_path (o.package_dir ∷ (label ++ codes ".tar.gz") ∷ [])

unfoldable pub pkg_file : Service → Bytes → Bytes → PkgFile
pkg_file F tag pkg = record { label = tag; id = package_id F tag pkg; bytes = pkg }

module _ {F : Service} where
  -- A call of which the code looks at the error itself.
  abbrev pub answered : {A : Type 0} → A × F.World → State F → Result AdminError A × State F
  answered (r, w) s = (ok r, record s { world = w })

  unfoldable pub try_call :
      {A : Type 0} → (F.World → Result Bytes A × F.World) → Admin F (Result Bytes A)
  try_call f s = answered (f s.world) s

  -- One attempt to approve.
  unfoldable pub approve_once : F.Conn → Definition F.Policy → Admin F (Unit {0})
  approve_once p def = do
    ready ← try_call (F.check_commit_readiness p def)
    if approved_by (F.msp p) ready then printf (already_approved (F.msp p)) else (do
      printf (approving (F.msp p) (F.host p) def.package_id)
      call (F.approve p def)
      printf (approved (F.msp p)))

  unfoldable pub approve : Network → Definition F.Policy → ℤ → ℤ → Admin F (Unit {0})
  approve n def i j = do
    p ← dial_peer i j
    retry n (codes "approve for " ++ F.msp p ++ codes " on " ++ F.host p) (approve_once p def)

  -- The loop over the approvals, in the order of the answer.
  unfoldable pub all_approved : List (Bytes × Bool) → Admin F (Unit {0})
  all_approved [] = pure tt
  all_approved ((msp, yes?) ∷ approvals) =
      if not yes? then raise (not_approved msp) else all_approved approvals

  unfoldable pub ready_once : F.Conn → Definition F.Policy → Admin F (Unit {0})
  ready_once p def = do
    approvals ← call (F.check_commit_readiness p def)
    all_approved approvals
    printf (readiness_confirmed (F.host p))

  unfoldable pub wait_ready : Network → Definition F.Policy → ℤ → ℤ → Admin F (Unit {0})
  wait_ready n def i j = do
    p ← dial_peer i j
    retry n (codes "commit readiness on " ++ F.host p) (ready_once p def)

  -- One attempt to commit.
  unfoldable pub commit_once : F.Conn → Definition F.Policy → Admin F (Unit {0})
  commit_once p def = do
    res ← try_call (F.query_committed p def.channel_name def.name)
    if committed_at def.sequence res then printf already_committed else (do
      printf (committing def.name def.version def.sequence)
      call (F.commit p def)
      printf definition_committed)

  unfoldable pub commit : Network → Definition F.Policy → Admin F (Unit {0})
  commit n def = do
    p ← dial_peer (first_index n.vars.org_indices) (first_index n.vars.peer_indices)
    retry n (codes "commit " ++ def.name ++ codes " on " ++ F.host p) (commit_once p def)

  abbrev pub check_committed : Bytes → Definition F.Policy → Bytes × ℤ → Admin F (Unit {0})
  check_committed host def (version, seq) =
      if not (bytes_eq version def.version && eqb_ℤ seq def.sequence)
      then raise (not_committed version seq)
      else printf (query_successful host)

  unfoldable pub committed_once : F.Conn → Definition F.Policy → Admin F (Unit {0})
  committed_once p def =
      call (F.query_committed p def.channel_name def.name) >>= check_committed (F.host p) def

  unfoldable pub wait_committed : Network → Definition F.Policy → ℤ → ℤ → Admin F (Unit {0})
  wait_committed n def i j = do
    p ← dial_peer i j
    retry n (codes "committed definition on " ++ F.host p) (committed_once p def)

  -- The steps behind the installation: approve, wait, commit, wait.
  unfoldable pub define : Network → Definition F.Policy → Admin F (Unit {0})
  define n def = do
    for_each_org n (approve n def)
    for_each_org n (wait_ready n def)
    commit n def
    for_each_org n (wait_committed n def)

  -- One round of the loop of `Install`.
  unfoldable pub install_one :
      Network
      → InstallOptions
      → F.Policy
      → List (CollectionConfig F.Policy)
      → Bytes
      → Admin F (Unit {0})
  install_one n o policy cols name = do
    pkg ← call (F.read_file (package_path F o (chaincode_label name o.version)))
    for_each_peer n (install_on n (pkg_file F (chaincode_label name o.version) pkg))
    seq ← next_sequence n o.channel name
    printf (next_sequence_number seq)
    define n
        (definition_of o policy cols name seq (package_id F (chaincode_label name o.version) pkg))

  unfoldable pub install : Network → InstallOptions → Admin F (Unit {0})
  install n o = do
    cols ← collections n
    policy ← application_policy n
    for_each (install_one n o policy cols) o.names
    printf all_good
