-- ===== src/Certs.antt =====
-- internal/certs: the errors, the printed lines, and the calls of the environment.
pub mod Environment
pub mod Leaves
pub mod Expiries
pub mod Rebuild
pub mod Reissue
pub mod Files
use fabric_network_builder.Prelude.{ℕ, List, [], ◌∷◌, Bool, true, false, Bytes, ℤ, Result, ok, err}
use fabric_network_builder.Exec.{Exec, pure, raise, ◌>>=◌}
use fabric_network_builder.Certs.Environment.{Machine}

-- Why a leaf cannot be reissued safely: the errors that wrap `ErrReissue`.
pub data Refusal : Type 0 where
  no_ca_dir : Bytes → Refusal
  no_ca_cert : Bytes → Bytes → Refusal
  no_ca_key : Bytes → Refusal
  ca_expired : ℤ → Refusal

pub data CertError : Type 0 where
  failed : Bytes → CertError
  no_pem_data : CertError
  in_file : Bytes → CertError → CertError
  unsupported_key : CertError
  unsupported_ca_key : CertError
  cannot_reissue : Refusal → CertError
  bad_days : CertError
  bad_type : Bytes → CertError
  no_leaves : Bytes → CertError
  no_nodes : List Bytes → CertError
  not_reissued : ℕ → CertError
  -- The model's own, for a search of a free name that runs on.
  fuel_spent : CertError

pub data Kind : Type 0 where
  sign_cert : Kind
  tls : Kind

-- The lines that a run prints: a leaf with whether it has expired and whether it is to be reissued,
-- and a leaf with its new expiry and whether the CA's expiry caps it.
pub data Line : Type 0 where
  table_head : Line
  leaf_status : Bytes → Kind → ℤ → Bool → Bool → Line
  no_targets : Line
  nothing_matched : Line
  blank_line : Line
  dry_run_leaf : Bytes → Kind → ℤ → Bool → Line
  renewed_leaf : Bytes → Kind → ℤ → Bool → Line
  skipped_leaf : Bytes → Kind → Refusal → Line

module _ (F : Machine) where
  -- The lines printed, the last one first, and the world outside.
  pub record State : Type 0 where
    pub out : List Line
    pub world : F.World

  abbrev pub Action : Type 0 → Type 0
  Action A = Exec CertError State A

module _ {F : Machine} where
  -- A call of the environment, whatever it answers.
  abbrev pub ask : {A : Type 0} → (F.World → A × F.World) → Action F A
  ask f s = (ok (f s.world).0, record s { world = (f s.world).1 })

  -- The result of a library function, whose error is returned as it is.
  abbrev pub returned : {A : Type 0} → Result Bytes A → Action F A
  returned (ok a) = pure a
  returned (err e) = raise (failed e)

  abbrev pub call : {A : Type 0} → (F.World → Result Bytes A × F.World) → Action F A
  call f = ask f >>= returned

  abbrev pub printf : Line → Action F (Unit {0})
  printf l s = (ok tt, record s { out = l ∷ s.out })
