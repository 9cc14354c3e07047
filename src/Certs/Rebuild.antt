-- ===== src/Certs/Rebuild.antt =====
-- internal/certs/certs.go: `Rebuild` and `BackupPath`.
pub mod Rebuilt
pub mod Search
use fabric_network_builder.Prelude.{
  ℕ, zero, suc, ◌+◌, ◌*◌, ◌^◌, List, [], ◌∷◌, ◌++◌, Bool, true, false, if◌then◌else◌, Bytes, codes,
  ℤ, pos, negsuc, ltb_ℤ, ◌-ℤ◌, Result, ok, err,
}
use fabric_network_builder.Prelude.Decimal.{print_ℕ}
use fabric_network_builder.Exec.{pure, raise, ◌>>=◌, ◌>>◌}
use fabric_network_builder.Certs.Environment.{
  Machine, Cert, Template, SignatureAlgorithm, ecdsa_with_sha256, sha256_with_rsa, pure_ed25519,
  KeyType, ecdsa_key, rsa_key, ed25519_key, other_key, StatError, not_exist, FileInfo,
}
use fabric_network_builder.Certs.{CertError, unsupported_ca_key, fuel_spent, Action, ask, call}

unfoldable pub signature_algorithm : KeyType → Result CertError SignatureAlgorithm
signature_algorithm ecdsa_key = ok ecdsa_with_sha256
signature_algorithm rsa_key = ok sha256_with_rsa
signature_algorithm ed25519_key = ok pure_ed25519
signature_algorithm other_key = err unsupported_ca_key

-- Five minutes before a time, but not before the CA's first time.
unfoldable pub valid_since : ℤ → ℤ → ℤ
valid_since now ca_since =
    let since = now -ℤ pos (300 * 10 ^ 9) in if ltb_ℤ since ca_since then ca_since else since

unfoldable pub template :
    {PublicKey Extension : Type 0}
    → Cert PublicKey Extension
    → ℤ
    → ℤ
    → SignatureAlgorithm
    → ℕ
    → Template Extension
template old since not_after alg serial = record {
  serial_number = serial;
  subject = old.raw_subject;
  valid_from = since;
  valid_to = not_after;
  algorithm = alg;
  extra_extensions = old.extensions;
}

-- `errors.Is(err, fs.ErrNotExist)`
abbrev pub is_not_exist : Result StatError FileInfo → Bool
is_not_exist (err not_exist) = true
is_not_exist r = false

-- `<cert>.<timestamp>.bak` and `<cert>.<timestamp>-<n>.bak`
unfoldable pub dated_backup : Bytes → Bytes → Bytes
dated_backup path ts = path ++ codes "." ++ ts ++ codes ".bak"

unfoldable pub numbered_backup : Bytes → Bytes → ℕ → Bytes
numbered_backup path ts n = path ++ codes "." ++ ts ++ codes "-" ++ print_ℕ n ++ codes ".bak"

module _ {F : Machine} where
  abbrev signing : Result CertError SignatureAlgorithm → Action F SignatureAlgorithm
  signing (ok alg) = pure alg
  signing (err e) = raise e

  unfoldable pub rebuild :
      Cert F.PublicKey F.Extension → Cert F.PublicKey F.Extension → F.Signer → ℤ → Action F Bytes
  rebuild old ca key not_after = do
    alg ← signing (signature_algorithm (F.type_of (F.public key)))
    serial ← call (F.rand_int (2 ^ 159))
    now ← ask F.clock
    der ← call (
        F.create_certificate (template old (valid_since now ca.not_before) not_after alg serial) ca
          old.public_key key)
    pure (F.pem_encode (codes "CERTIFICATE") der)

  -- The loop over the numbers behind the timestamp.
  unfoldable pub search_backup : ℕ → Bytes → Bytes → Bytes → ℕ → Action F Bytes
  search_backup zero path ts bak n = raise fuel_spent
  search_backup (suc fuel) path ts bak n = do
    r ← ask (F.stat bak)
    if is_not_exist r
        then pure bak
        else search_backup fuel path ts (numbered_backup path ts n) (suc n)

  unfoldable pub dated_backup_path : ℕ → Bytes → Action F Bytes
  dated_backup_path fuel path = do
    now ← ask F.clock
    search_backup fuel path (F.format now (codes "20060102150405"))
        (dated_backup path (F.format now (codes "20060102150405"))) 1

  unfoldable pub backup_path : ℕ → Bytes → Action F Bytes
  backup_path fuel path = do
    r ← ask (F.stat (path ++ codes ".bak"))
    if is_not_exist r then pure (path ++ codes ".bak") else dated_backup_path fuel path
