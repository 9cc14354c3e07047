-- ===== src/Admin/Exec.antt =====
-- The errors of internal/admin, and the loop of `retry` of internal/admin/admin.go.
pub mod Laws
use fabric_network_builder.Prelude.{ℕ, zero, suc, Bytes, ℤ}
use fabric_network_builder.Exec.{Exec, raise, ◌>>=◌, ◌>>◌, or_else}

-- The errors of the package. A failure of a call to a node, a file or a library carries its text;
-- `context_done` is the error of a context that ended during a wait.
pub data AdminError : Type 0 where
  failed : Bytes → AdminError
  context_done : Bytes → AdminError
  not_approved : Bytes → AdminError
  not_committed : Bytes → ℤ → AdminError
  bad_collections : AdminError → AdminError
  bad_collection : Bytes → AdminError → AdminError
  bad_policy : Bytes → AdminError → AdminError
  after_attempts : Bytes → ℕ → AdminError → AdminError
  no_attempts : Bytes → AdminError
  no_channel : AdminError
  in_file : Bytes → AdminError → AdminError
  not_config_update : Bytes → ℤ → AdminError
  other_channel : Bytes → Bytes → Bytes → AdminError
  not_ordered : Bytes → ℤ → Bytes → AdminError
  not_delivered : Bytes → Bytes → ℤ → AdminError
  not_endorsed : Bytes → AdminError → AdminError
  endorsement_status : Bytes → ℤ → Bytes → AdminError
  commit_status_failed : Bytes → AdminError → AdminError
  not_valid : Bytes → ℤ → AdminError
  unable_to_create : Bytes → AdminError → AdminError
  unable_to_join : Bytes → AdminError → AdminError

-- The loop of `retry`: `pause` prints the failure of an attempt and waits; its arguments are the
-- attempts left and the error. The number counts the attempts left.
module _ {ℓ κ} {S : Type ℓ} {A : Type κ} (what : Bytes) (retries : ℕ)
    (pause : ℕ → AdminError → Exec AdminError S (Unit {0})) (f : Exec AdminError S A) where
  -- Behind a failed attempt: the last one gives up, any other waits.
  unfoldable pub after_failure : ℕ → Exec AdminError S A → AdminError → Exec AdminError S A
  after_failure zero more e = raise (after_attempts what retries e)
  after_failure (suc left) more e = do pause (suc left) e; more

  unfoldable pub attempts : ℕ → Exec AdminError S A
  attempts zero = raise (no_attempts what)
  attempts (suc left) = or_else f (after_failure left (attempts left))
