-- ===== src/Certs/Expiries.antt =====
-- internal/certs/certs.go: `Expiries`, the list of a tree's certificates.
pub mod Shallow
use fabric_network_builder.Prelude.{
  ℕ, List, [], ◌∷◌, ◌++◌, Bool, true, false, not, ◌&&◌, ◌||◌, ◌==◌, ltb, if◌then◌else◌, Option,
  none, some, Bytes, codes, bytes_eq, has_suffix, split, length, Result, ok, err,
}
use fabric_network_builder.Prelude.Sort.{bytes_leb, sort_by}
use fabric_network_builder.Prelude.Members.{filter_by}
use fabric_network_builder.Exec.{pure, raise, ◌>>=◌}
use fabric_network_builder.Certs.Environment.{Machine, Cert}
use fabric_network_builder.Certs.{CertError, in_file, Action, ask, call, returned}
use fabric_network_builder.Certs.Leaves.{settled, parse_cert}

pub record Expiry : Type 0 where
  pub expiry : Bytes
  pub path : Bytes

-- The identical files, by the MD5 of their bytes.
pub record Group : Type 0 where
  pub key : Bytes
  pub expires : Bytes
  pub paths : List Bytes

unfoldable pub is_cert_file : Bytes × Bool → Bool
is_cert_file (p, is_dir) =
    not is_dir && (has_suffix p (codes ".pem") || has_suffix p (codes ".crt"))

-- `groups[key]`, and the group with one path more.
unfoldable pub has_group : Bytes → List Group → Bool
has_group key [] = false
has_group key (g ∷ groups) = bytes_eq g.key key || has_group key groups

unfoldable pub add_path : Bytes → Bytes → List Group → List Group
add_path key p [] = []
add_path key p (g ∷ groups) =
    let rest = add_path key p groups in
    if bytes_eq g.key key then record g { paths = g.paths ++ (p ∷ []) } ∷ groups else g ∷ rest

-- The least depth of the paths, from the least so far; none is the source's -1.
module _ (depth : Bytes → ℕ) where
  unfoldable pub lesser : Option ℕ → ℕ → ℕ
  lesser none d = d
  lesser (some least) d = if ltb d least then d else least

  unfoldable pub least_depth : Option ℕ → List Bytes → Option ℕ
  least_depth least [] = least
  least_depth least (p ∷ paths) = least_depth (some (lesser least (depth p))) paths

  abbrev pub is_at : Option ℕ → Bytes → Bool
  is_at none p = false
  is_at (some least) p = depth p == least

  abbrev pub paths_at : Option ℕ → List Bytes → List Bytes
  paths_at least = filter_by (is_at least)

  -- The paths of a group that are listed.
  unfoldable pub shallowest : List Bytes → List Bytes
  shallowest paths = paths_at (least_depth none paths) paths

  unfoldable pub listed : List Group → List Expiry
  listed [] = []
  listed (g ∷ groups) = entries g.expires (shallowest g.paths) ++ listed groups
    where
      entries : Bytes → List Bytes → List Expiry
      entries e [] = []
      entries e (p ∷ paths) = record { expiry = e; path = p } ∷ entries e paths

unfoldable pub expiry_leb : Expiry → Expiry → Bool
expiry_leb a b =
    if not (bytes_eq a.expiry b.expiry)
    then bytes_leb a.expiry b.expiry
    else bytes_leb a.path b.path

-- `len(strings.Split(filepath.Clean(p), "/"))`
unfoldable pub depth_of : (F : Machine) → Bytes → ℕ
depth_of F p = length (split (F.clean p) b'/')

module _ {F : Machine} where
  -- A new group, for the first file of its content.
  unfoldable pub grouped : Bytes → Bytes → List Group → Action F (List Group)
  grouped p b groups =
      if has_group (F.md5_hex b) groups then pure (add_path (F.md5_hex b) p groups) else do
        c ← settled (in_file p) (parse_cert F b)
        pure (
            groups
            ++ (record {
              key = F.md5_hex b;
              expires = F.format c.not_after (codes "2006-01-02T15:04:05Z");
              paths = p ∷ [];
            }
                ∷ []))

  unfoldable pub visit : Bytes × Bool → List Group → Action F (List Group)
  visit entry groups =
      if not (is_cert_file entry)
      then pure groups
      else do b ← call (F.read_file entry.0); grouped entry.0 b groups

  unfoldable pub visit_all : List (Bytes × Bool) → List Group → Action F (List Group)
  visit_all [] groups = pure groups
  visit_all (entry ∷ walk) groups = visit entry groups >>= visit_all walk

  unfoldable pub expiries : Bytes → Action F (List Expiry)
  expiries root = do
    walk ← call (F.walk_dir root)
    groups ← visit_all walk []
    pure (sort_by expiry_leb (listed (depth_of F) groups))
