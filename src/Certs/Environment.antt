-- ===== src/Certs/Environment.antt =====
-- What internal/certs calls of its environment: the file system, the clock, crypto/x509 and PEM.
use fabric_network_builder.Prelude.{ℕ, List, Bool, Option, Bytes, ℤ, Result}

-- The fields of an `x509.Certificate` that the package reads. A time is the number of nanoseconds
-- since a fixed instant.
pub record Cert (PublicKey Extension : Type 0) : Type 0 where
  pub raw_subject : Bytes
  pub raw_issuer : Bytes
  pub issuer : Bytes
  pub not_before : ℤ
  pub not_after : ℤ
  pub public_key : PublicKey
  pub extensions : List Extension

pub data SignatureAlgorithm : Type 0 where
  ecdsa_with_sha256 : SignatureAlgorithm
  sha256_with_rsa : SignatureAlgorithm
  pure_ed25519 : SignatureAlgorithm

-- The Go type of a public key.
pub data KeyType : Type 0 where
  ecdsa_key : KeyType
  rsa_key : KeyType
  ed25519_key : KeyType
  other_key : KeyType

pub record Template (Extension : Type 0) : Type 0 where
  pub serial_number : ℕ
  pub subject : Bytes
  pub valid_from : ℤ
  pub valid_to : ℤ
  pub algorithm : SignatureAlgorithm
  pub extra_extensions : List Extension

pub data StatError : Type 0 where
  not_exist : StatError
  not_readable : Bytes → StatError

pub record FileInfo : Type 0 where
  pub is_dir : Bool
  pub perm : ℕ

pub record Machine : Type 1 where
  pub World : Type 0
  pub stat : Bytes → World → Result StatError FileInfo × World
  pub glob : Bytes → World → Result Bytes (List Bytes) × World
  pub read_file : Bytes → World → Result Bytes Bytes × World
  pub write_file : Bytes → Bytes → ℕ → World → Result Bytes (Unit {0}) × World
  -- The paths that a walk of a directory finds, each with whether it is a directory.
  pub walk_dir : Bytes → World → Result Bytes (List (Bytes × Bool)) × World
  pub clock : World → ℤ × World
  -- A random number below a bound.
  pub rand_int : ℕ → World → Result Bytes ℕ × World
  -- `filepath.Join`, `Dir`, `Base` and `Clean`, and the text of a time in a format.
  pub join_path : List Bytes → Bytes
  pub dir : Bytes → Bytes
  pub base : Bytes → Bytes
  pub clean : Bytes → Bytes
  pub format : ℤ → Bytes → Bytes
  -- The MD5 of bytes in hexadecimal digits.
  pub md5_hex : Bytes → Bytes
  -- Keys and certificates. A PEM block is its type and its bytes.
  pub PublicKey : Type 0
  pub Extension : Type 0
  pub PrivateKey : Type 0
  pub Signer : Type 0
  pub pem_decode : Bytes → Option (Bytes × Bytes)
  pub pem_encode : Bytes → Bytes → Bytes
  pub parse_certificate : Bytes → Result Bytes (Cert PublicKey Extension)
  pub parse_ec_private_key : Bytes → Result Bytes PrivateKey
  pub parse_pkcs1_private_key : Bytes → Result Bytes PrivateKey
  pub parse_pkcs8_private_key : Bytes → Result Bytes PrivateKey
  pub as_signer : PrivateKey → Option Signer
  pub public : Signer → PublicKey
  pub marshal_public_key : PublicKey → Result Bytes Bytes
  pub type_of : PublicKey → KeyType
  pub create_certificate :
      Template Extension
      → Cert PublicKey Extension
      → PublicKey
      → Signer
      → World
      → Result Bytes Bytes × World
