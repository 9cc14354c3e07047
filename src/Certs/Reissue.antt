-- ===== src/Certs/Reissue.antt =====
-- internal/certs/reissue.go: the leaves that are selected are renewed.
pub mod Renewed
pub mod Untouched
pub mod Expiry
pub mod Selected
use fabric_network_builder.Prelude.{
  ℕ, zero, suc, ◌+◌, ◌*◌, ◌^◌, List, [], ◌∷◌, ◌++◌, Bool, true, false, not, ◌&&◌, ◌||◌, ◌==◌,
  if◌then◌else◌, Option, none, some, Bytes, codes, bytes_eq, has_prefix, ℤ, pos, negsuc, ltb_ℤ, ltb,
  ◌+ℤ◌, ◌*ℤ◌, wrap, Result, ok, err, is_nil,
}
use fabric_network_builder.Prelude.Sort.{bytes_leb, sort_by}
use fabric_network_builder.Prelude.Members.{filter_by}
use fabric_network_builder.Exec.{pure, raise, either_way, ◌>>=◌, ◌>>◌, for_each}
use fabric_network_builder.Certs.Environment.{
  Machine, Cert, StatError, not_exist, not_readable, FileInfo,
}
use fabric_network_builder.Certs.{
  CertError, failed, cannot_reissue, ca_expired, bad_days, bad_type, no_leaves, no_nodes,
  not_reissued, Kind, sign_cert, tls, Line, table_head, leaf_status, no_targets, nothing_matched,
  blank_line, dry_run_leaf, renewed_leaf, skipped_leaf, Action, ask, call, printf,
}
use fabric_network_builder.Certs.Leaves.{Leaf, Ca, discover, resolve_ca}
use fabric_network_builder.Certs.Rebuild.{rebuild, backup_path}

-- `now` is none for the zero time.
pub record ReissueOptions : Type 0 where
  pub now : Option ℤ
  pub crypto_config : Bytes
  pub type : Bytes
  pub nodes : List Bytes
  pub days : ℤ
  pub all_expired : Bool
  pub all : Bool
  pub days_set : Bool
  pub dry_run : Bool
  pub no_backup : Bool

unfoldable pub node_matches : Bytes → List Bytes → Bool
node_matches node [] = false
node_matches node (p ∷ patterns) =
    (bytes_eq node p || has_prefix node (p ++ codes ".")) || node_matches node patterns

unfoldable pub kinds_of : Bytes → Result CertError (List Kind)
kinds_of type =
    if is_nil type || bytes_eq type (codes "both")
    then ok (sign_cert ∷ tls ∷ [])
    else if bytes_eq type (codes "signcert")
    then ok (sign_cert ∷ [])
    else if bytes_eq type (codes "tls")
    then ok (tls ∷ [])
    else err (bad_type type)

unfoldable pub checked_kinds : ReissueOptions → Result CertError (List Kind)
checked_kinds o = if o.days_set && ltb_ℤ o.days (pos 1) then err bad_days else kinds_of o.type

unfoldable pub is_selecting : ReissueOptions → Bool
is_selecting o = o.all || o.all_expired || not (is_nil o.nodes)

-- `time.Duration(o.Days) * 24 * time.Hour`, in nanoseconds, with each product's wrap-around.
unfoldable pub days_duration : ℤ → ℤ
days_duration days = wrap (wrap (days *ℤ pos 24) *ℤ pos (3600 * 10 ^ 9))

-- The new expiry, and whether the CA's caps it.
unfoldable pub new_expiry : ReissueOptions → ℤ → ℤ → ℤ × Bool
new_expiry o now ca_expiry =
    if not o.days_set
    then (ca_expiry, false)
    else if ltb_ℤ ca_expiry (now +ℤ days_duration o.days)
    then (ca_expiry, true)
    else (now +ℤ days_duration o.days, false)

unfoldable pub kind_name : Kind → Bytes
kind_name sign_cert = codes "signcert"
kind_name tls = codes "tls"

module _ {PublicKey Extension : Type 0} where
  unfoldable pub has_expired : ℤ → Leaf PublicKey Extension → Bool
  has_expired now l = not (ltb_ℤ now l.expiry)

  unfoldable pub is_selected : ReissueOptions → ℤ → Leaf PublicKey Extension → Bool
  is_selected o now l =
      (is_nil o.nodes || node_matches l.node o.nodes) && (not o.all_expired || has_expired now l)

  -- The order of the report: by org, node and kind; `not (b < a)` of the source's comparison.
  unfoldable pub leaf_leb : Leaf PublicKey Extension → Leaf PublicKey Extension → Bool
  leaf_leb a b =
      if not (bytes_eq a.org b.org)
      then bytes_leb a.org b.org
      else if not (bytes_eq a.node b.node)
      then bytes_leb a.node b.node
      else bytes_leb (kind_name a.kind) (kind_name b.kind)

  -- The patterns that no leaf matches.
  unfoldable pub matches_leaf : Bytes → List (Leaf PublicKey Extension) → Bool
  matches_leaf p [] = false
  matches_leaf p (l ∷ leaves) = node_matches l.node (p ∷ []) || matches_leaf p leaves

  unfoldable pub unmatched : List (Leaf PublicKey Extension) → List Bytes → List Bytes
  unmatched leaves [] = []
  unmatched leaves (p ∷ patterns) =
      let rest = unmatched leaves patterns in if matches_leaf p leaves then rest else p ∷ rest

  unfoldable pub is_target : ReissueOptions → ℤ → Leaf PublicKey Extension → Bool
  is_target o now l = is_selecting o && is_selected o now l

  unfoldable pub targets :
      ReissueOptions → ℤ → List (Leaf PublicKey Extension) → List (Leaf PublicKey Extension)
  targets o now = filter_by (is_target o now)

module _ {F : Machine} (fuel : ℕ) (o : ReissueOptions) (now : ℤ) where
  -- The old certificate is kept beside the new one.
  unfoldable pub keep_backup : Bytes → ℕ → Action F (Unit {0})
  keep_backup path perm = if o.no_backup then pure tt else do
    old ← call (F.read_file path)
    bak ← backup_path fuel path
    call (F.write_file bak old perm)

  abbrev pub known : Result StatError FileInfo → Action F FileInfo
  known (ok fi) = pure fi
  known (err not_exist) = raise (failed (codes "file does not exist"))
  known (err (not_readable e)) = raise (failed e)

  unfoldable pub replace_cert : Bytes → Bytes → Action F (Unit {0})
  replace_cert path b = do
    r ← ask (F.stat path)
    fi ← known r
    keep_backup path fi.perm
    call (F.write_file path b fi.perm)

  unfoldable pub renew : Leaf F.PublicKey F.Extension → Ca F → ℤ × Bool → Action F (Unit {0})
  renew l issuer (not_after, capped) =
      if o.dry_run then printf (dry_run_leaf l.node l.kind not_after capped) else do
        b ← rebuild l.cert issuer.cert issuer.key not_after
        replace_cert l.cert_path b
        printf (renewed_leaf l.node l.kind not_after capped)

  unfoldable pub reissue_one : Leaf F.PublicKey F.Extension → Action F (Unit {0})
  reissue_one l = do
    issuer ← resolve_ca l.ca_dir l.cert
    if ltb_ℤ now issuer.cert.not_after
        then renew l issuer (new_expiry o now issuer.cert.not_after)
        else raise (cannot_reissue (ca_expired issuer.cert.not_after))

  -- What follows an error of a leaf: it is skipped if the leaf cannot be reissued.
  abbrev pub or_skip : Leaf F.PublicKey F.Extension → Action F ℕ → CertError → Action F ℕ
  or_skip l rest (cannot_reissue r) = do printf (skipped_leaf l.node l.kind r); rest
  or_skip l rest e = raise e

  -- The loop over the targets, with the number of failures so far.
  unfoldable pub reissue_targets : List (Leaf F.PublicKey F.Extension) → ℕ → Action F ℕ
  reissue_targets [] failures = pure failures
  reissue_targets (l ∷ leaves) failures =
      either_way (reissue_one l) (λ u. reissue_targets leaves failures)
        (or_skip l (reissue_targets leaves (failures + 1)))

  unfoldable pub report_leaf : Leaf F.PublicKey F.Extension → Action F (Unit {0})
  report_leaf l =
      printf (leaf_status l.node l.kind l.expiry (has_expired now l) (is_target o now l))

  unfoldable pub reissue_selected : List (Leaf F.PublicKey F.Extension) → Action F (Unit {0})
  reissue_selected selected =
      if not (is_selecting o)
      then printf no_targets
      else if is_nil selected
      then printf nothing_matched
      else do
        printf blank_line
        failures ← reissue_targets selected 0
        if ltb 0 failures then raise (not_reissued failures) else pure tt

  -- `Reissue`, once the leaves and the time are known.
  unfoldable pub reissue_leaves : List (Leaf F.PublicKey F.Extension) → Action F (Unit {0})
  reissue_leaves leaves =
      if not (is_nil (unmatched leaves o.nodes))
      then raise (no_nodes (unmatched leaves o.nodes))
      else do
        printf table_head
        for_each report_leaf (sort_by leaf_leb leaves)
        reissue_selected (targets o now (sort_by leaf_leb leaves))

module _ {F : Machine} where
  abbrev pub checked : Result CertError (List Kind) → Action F (List Kind)
  checked (ok kinds) = pure kinds
  checked (err e) = raise e

  -- `now`, which the clock gives when the options do not.
  abbrev pub time_of : Option ℤ → Action F ℤ
  time_of none = ask F.clock
  time_of (some now) = pure now

  unfoldable pub reissue_found :
      ℕ → ReissueOptions → List (Leaf F.PublicKey F.Extension) → Action F (Unit {0})
  reissue_found fuel o leaves =
      if is_nil leaves
      then raise (no_leaves o.crypto_config)
      else do now ← time_of o.now; reissue_leaves fuel o now leaves

  -- `Reissue`; the fuel is for the search of a backup's name.
  unfoldable pub reissue : ℕ → ReissueOptions → Action F (Unit {0})
  reissue fuel o = do
    kinds ← checked (checked_kinds o)
    leaves ← discover o.crypto_config kinds
    reissue_found fuel o leaves
