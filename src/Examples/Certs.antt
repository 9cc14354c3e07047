-- ===== src/Examples/Certs.antt =====
-- Runs of the renewal of certificates on a machine with one leaf and its CA, and applications of the
-- theorems.
use fabric_network_builder.Prelude.{
  ℕ, ◌+◌, List, [], ◌∷◌, Bool, true, false, ◌||◌, if◌then◌else◌, ◌≡◌, ◌≢◌, refl, inl, inr, Option,
  none, some, Bytes, codes, bytes_eq, bytes_eq→eq, bytes_eq_refl, join, pos, Result, ok, err, All,
  arith, Bool-cases, has_prefix, ltb_ℤ, ◌+ℤ◌, ◌-ℤ◌, ◌*ℤ◌, wrap, ◌*◌, ◌^◌, ◌↔◌, ◌≤◌, length, split,
}
use fabric_network_builder.Certs.Environment.{
  Machine, Cert, ecdsa_key, StatError, not_exist, FileInfo,
}
use fabric_network_builder.Certs.{State, sign_cert, tls}
use fabric_network_builder.Certs.Files.{Laws, Contents}
use fabric_network_builder.Prelude.Sort.{bytes_leb, insert_by, sort_by}
use fabric_network_builder.Prelude.Members.{filter_by}
use fabric_network_builder.Exec.{collect, for_each}
use fabric_network_builder.Certs.Leaves.{
  Leaf, leaf_spec, node_parents, parse_cert, load_cert, parse_key, load_key, first_leaf,
  discover_kind, discover_node, discover_parent, discover, find_ca, is_pair, find_key, with_ca,
  search_ca, resolve_ca,
}
use fabric_network_builder.Certs.Rebuild.{
  signature_algorithm, valid_since, template, rebuild, dated_backup, numbered_backup, search_backup,
  dated_backup_path, backup_path,
}
use fabric_network_builder.Certs.Rebuild.Search.{Returns, backup_path-Returns}
use fabric_network_builder.Certs.Reissue.{
  ReissueOptions, node_matches, kinds_of, checked_kinds, is_selecting, days_duration, new_expiry,
  kind_name, has_expired, is_selected, leaf_leb, matches_leaf, unmatched, is_target, targets,
  keep_backup, replace_cert, renew, reissue_one, reissue_targets, report_leaf, reissue_selected,
  reissue_leaves, reissue_found, reissue,
}
use fabric_network_builder.Certs.Reissue.Renewed.{IsRenewed, reissue_one-IsRenewed}
use fabric_network_builder.Certs.Reissue.Untouched.{reissue-Untouched}
use mathlib.Core.List.{Memᴰ}
use fabric_network_builder.Certs.Expiries.{shallowest}
use fabric_network_builder.Certs.Expiries.Shallow.{shallowest_iff}
use fabric_network_builder.Certs.Reissue.Selected.{IsWanted, targets_iff}
use fabric_network_builder.Certs.Reissue.Expiry.{Earlier, day, new_expiry-IsBounded}

abbrev leaf_cert : Cert ℕ (Unit {0})
leaf_cert = record {
  raw_subject = codes "leaf";
  raw_issuer = codes "ca";
  issuer = codes "ca";
  not_before = pos 0;
  not_after = pos 5;
  public_key = 1;
  extensions = [];
}

abbrev ca_cert : Cert ℕ (Unit {0})
ca_cert = record {
  raw_subject = codes "ca";
  raw_issuer = codes "ca";
  issuer = codes "ca";
  not_before = pos 0;
  not_after = pos 100;
  public_key = 2;
  extensions = [];
}

abbrev is_dir_path : Bytes → Bool
is_dir_path p = bytes_eq p (codes "n") || bytes_eq p (codes "n/ca")

abbrev stat_file : Option Bytes → Result StatError FileInfo
stat_file none = err not_exist
stat_file (some b) = ok (record { is_dir = false; perm = 420 })

abbrev stat_of : Bool → Option Bytes → Result StatError FileInfo
stat_of true f = ok (record { is_dir = true; perm = 493 })
stat_of false f = stat_file f

abbrev read_of : Option Bytes → Result Bytes Bytes
read_of none = err (codes "no such file")
read_of (some b) = ok b

-- What the patterns match.
glob_of : Bytes → List Bytes
unfolding bytes_eq codes
glob_of pattern =
    if bytes_eq pattern (codes "c/*Organizations/*/peers/*")
    then codes "n" ∷ []
    else if bytes_eq pattern (codes "n/msp/signcerts/*.pem")
    then codes "l" ∷ []
    else if bytes_eq pattern (codes "n/ca/*.pem")
    then codes "a" ∷ []
    else if bytes_eq pattern (codes "n/ca/*_sk")
    then codes "k" ∷ []
    else []

abbrev cert_of : Bytes → Result Bytes (Cert ℕ (Unit {0}))
cert_of b = if bytes_eq b (codes "L") then ok leaf_cert else ok ca_cert

-- The files are a function of their paths; a key is its number.
abbrev machine : Machine
machine = record {
  World = Contents;
  stat = λ p w. (stat_of (is_dir_path p) (w p), w);
  glob = λ pattern w. (ok (glob_of pattern), w);
  read_file = λ p w. (read_of (w p), w);
  write_file = λ q b perm w. (ok tt, λ p. if bytes_eq p q then some b else w p);
  walk_dir = λ root w. (ok [], w);
  clock = λ w. (pos 50, w);
  rand_int = λ n w. (ok 7, w);
  join_path = λ ps. join ps (codes "/");
  dir = λ p. p;
  base = λ p. p;
  clean = λ p. p;
  format = λ t layout. codes "now";
  md5_hex = λ b. b;
  PublicKey = ℕ;
  Extension = Unit {0};
  PrivateKey = ℕ;
  Signer = ℕ;
  pem_decode = λ b. some (codes "EC PRIVATE KEY", b);
  pem_encode = λ type der. der;
  parse_certificate = cert_of;
  parse_ec_private_key = λ b. ok 2;
  parse_pkcs1_private_key = λ b. ok 2;
  parse_pkcs8_private_key = λ b. ok 2;
  as_signer = λ k. some k;
  public = λ k. k;
  marshal_public_key = λ k. ok (k ∷ []);
  type_of = λ k. ecdsa_key;
  create_certificate = λ t ca k key w. (ok (codes "N"), w);
}

stat-NoFile : (b : Bool) (f : Option Bytes) → stat_of b f ≡ err not_exist → f ≡ none
stat-NoFile true f e = cc
stat-NoFile false none e = refl
stat-NoFile false (some x) e = cc

read-FileRead : (f : Option Bytes) (b : Bytes) → read_of f ≡ ok b → f ≡ some b
read-FileRead none b e = cc
read-FileRead (some x) b e = ground arith

other-write :
    (p q : Bytes) (b : Bytes) (w : Contents) → p ≢ q → (if bytes_eq p q then some b else w p) ≡ w p
other-write p q b w h = elim (Bool-cases (bytes_eq p q)) [
  | inl e ↦ elim (h (bytes_eq→eq p q e)) [ ]
  | inr e ↦ rw e refl
]

own-write : (q b : Bytes) (w : Contents) → (if bytes_eq q q then some b else w q) ≡ some b
own-write q b w = rw (bytes_eq_refl q) refl

machine_laws : Laws machine
machine_laws = record {
  content = λ w. w;
  stat = λ p. record { at = λ w. (refl, stat-NoFile (is_dir_path p) (w p)) };
  glob = λ pattern. record { at = λ w. (refl, tt) };
  read_file = λ p. record { at = λ w. (refl, read-FileRead (w p)) };
  clock = record { at = λ w. (refl, tt) };
  rand_int = λ n. record { at = λ w. (refl, tt) };
  create_certificate = λ t ca k key. record { at = λ w. (refl, tt) };
  write_other = λ q b perm w p h. other-write p q b w h;
  write_file = λ q b perm w e. own-write q b w;
}

runs : Unit {0}
unfolding codes bytes_eq has_prefix glob_of bytes_leb insert_by sort_by filter_by collect for_each
    leaf_spec node_parents parse_cert load_cert parse_key load_key first_leaf discover_kind
    discover_node discover_parent discover find_ca is_pair find_key with_ca search_ca resolve_ca
    signature_algorithm valid_since template rebuild dated_backup numbered_backup search_backup
    dated_backup_path backup_path node_matches kinds_of checked_kinds is_selecting days_duration
    new_expiry kind_name has_expired is_selected leaf_leb matches_leaf unmatched is_target targets
    keep_backup replace_cert renew reissue_one reissue_targets report_leaf reissue_selected
    reissue_leaves reissue_found reissue join ◌+ℤ◌ ◌-ℤ◌ ◌*ℤ◌ wrap
runs = tt

-- The leaf `l` and its CA, and a file that is neither's.
files : Contents
unfolding bytes_eq codes
files p =
    if bytes_eq p (codes "l")
    then some (codes "L")
    else if bytes_eq p (codes "a")
    then some (codes "A")
    else if bytes_eq p (codes "k")
    then some (codes "K")
    else if bytes_eq p (codes "l.bak")
    then some (codes "B")
    else none

abbrev start : State machine
start = record { out = []; world = files }

abbrev options : ReissueOptions
options = record {
  now = none;
  crypto_config = codes "c";
  type = [];
  nodes = codes "n" ∷ [];
  days = pos 30;
  all_expired = true;
  all = false;
  days_set = true;
  dry_run = false;
  no_backup = false;
}

abbrev the_leaf : Leaf ℕ (Unit {0})
the_leaf = record {
  cert = leaf_cert;
  expiry = pos 5;
  node = codes "n";
  org = codes "n";
  kind = sign_cert;
  cert_path = codes "l";
  ca_dir = codes "n/ca";
}

finds :
    discover {F = machine} (codes "c") (sign_cert ∷ tls ∷ []) start ≡ (ok (the_leaf ∷ []), start)
unfolding runs files
finds = refl

-- The leaf is renewed up to its CA's expiry, and the earlier backup stays.
renews :
    let r = reissue {F = machine} 3 options start in
    (r.0 ≡ ok tt)
    × (r.1.world (codes "l") ≡ some (codes "N"))
    × (r.1.world (codes "l.bak") ≡ some (codes "B"))
    × (r.1.world (codes "l.now.bak") ≡ some (codes "L"))
unfolding runs files
renews = (refl, refl, refl, refl)

abbrev renewed : State machine
renewed = (reissue_one {F = machine} 3 options (pos 50) the_leaf start).1

reissue_one-IsRenewed_example :
    IsRenewed machine options (pos 50) the_leaf (files (codes "l")) renewed.world
unfolding runs files machine_laws
reissue_one-IsRenewed_example =
    reissue_one-IsRenewed machine_laws 3 options (pos 50) the_leaf start renewed refl refl

reissue-Untouched_example :
    (reissue {F = machine} 3 options start).1.world (codes "l.bak") ≡ some (codes "B")
unfolding runs files machine_laws
reissue-Untouched_example =
    reissue-Untouched machine_laws 3 options start start (sign_cert ∷ tls ∷ []) (the_leaf ∷ [])
      (codes "l.bak") (codes "B") refl finds (inr ((λ e. ground arith), tt)) refl

backup_path-Returns_example : Returns {F = machine} (backup_path 3 (codes "n") start)
unfolding runs files
backup_path-Returns_example =
    backup_path-Returns {F = machine} 3 1 (codes "n") start (λ p q w. refl) (λ q w. refl)
      (omega arith) (λ ts. refl)

new_expiry-IsBounded_example :
    Earlier 50 100 (50 + 30 * day) (new_expiry options (pos 50) (pos 100)).0
new_expiry-IsBounded_example =
    new_expiry-IsBounded options 30 50 100 refl refl (omega arith) (omega arith) (omega arith)

-- 106752 days are more nanoseconds than an int64 holds: the new expiry is before now.
overflowing_days :
    ltb_ℤ (new_expiry (record options { days = pos 106752 }) (pos 50) (pos (10 ^ 20))).0 (pos 50)
    ≡ true
unfolding runs
overflowing_days = refl

targets_iff_example :
    Memᴰ the_leaf (targets options (pos 50) (sort_by leaf_leb (the_leaf ∷ [])))
    ↔ (Memᴰ the_leaf (the_leaf ∷ []) × IsWanted options (pos 50) the_leaf)
targets_iff_example = targets_iff options (pos 50) (the_leaf ∷ []) the_leaf

abbrev slashes : Bytes → ℕ
slashes p = length (split p b'/')

shallowest_iff_example :
    Memᴰ (codes "a/ca.pem") (shallowest slashes (codes "a/b/ca.pem" ∷ codes "a/ca.pem" ∷ [])) ↔ (
      Memᴰ (codes "a/ca.pem") (codes "a/b/ca.pem" ∷ codes "a/ca.pem" ∷ [])
      × All
          (λ q. slashes (codes "a/ca.pem") ≤ slashes q)
          (codes "a/b/ca.pem" ∷ codes "a/ca.pem" ∷ []))
shallowest_iff_example =
    shallowest_iff slashes (codes "a/b/ca.pem" ∷ codes "a/ca.pem" ∷ []) (codes "a/ca.pem")
