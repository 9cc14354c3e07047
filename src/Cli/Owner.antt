-- ===== src/Cli/Owner.antt =====
-- internal/cli/fsutil.go: `parseChown`.
pub mod Numbers
use fabric_network_builder.Prelude.{
  ℕ, List, [], ◌∷◌, Bool, true, false, not, ◌&&◌, if◌then◌else◌, Option, none, some, Bytes, codes,
  cut, is_nil, ℤ, pos, negsuc, Result, ok, err, ◌>>=◌,
}
use fabric_network_builder.Prelude.Decimal.{atoi}

pub record Owner : Type 0 where
  pub uid : ℤ
  pub gid : ℤ

pub data OwnerError : Type 0 where
  unknown_user : Bytes → OwnerError
  unknown_group : Bytes → OwnerError

-- The user database: the IDs of a user, and of a user's group, and of a group, as texts.
pub record Accounts : Type 0 where
  pub lookup_user : Bytes → Option (Bytes × Bytes)
  pub lookup_group : Bytes → Option Bytes

-- `strconv.Atoi` with its error dropped; an ID of the database is a number.
abbrev pub id_of : Bytes → ℤ
id_of s = elim (atoi s) [ some n ↦ n | none ↦ pos 0 ]

module _ (A : Accounts) where
  abbrev named_user : Bytes → Bool → Option (Bytes × Bytes) → Result OwnerError Owner
  named_user u alone none = err (unknown_user u)
  named_user u alone (some (uid, gid)) =
      ok (record { uid = id_of uid; gid = if alone then id_of gid else negsuc 0 })

  -- The user's part; `alone` says that there is no colon.
  unfoldable pub user_part : Bytes → Bool → Result OwnerError Owner
  user_part u alone =
      if is_nil u then ok (record { uid = negsuc 0; gid = negsuc 0 }) else elim (atoi u) [
        | some n ↦ ok (record { uid = n; gid = negsuc 0 })
        | none ↦ named_user u alone (A.lookup_user u)
      ]

  abbrev named_group : Bytes → Option Bytes → Result OwnerError ℤ
  named_group g none = err (unknown_group g)
  named_group g (some gid) = ok (id_of gid)

  unfoldable pub group_part : Bytes → Owner → Result OwnerError Owner
  group_part g o =
      if is_nil g
      then ok o
      else (elim (atoi g) [ some n ↦ ok n | none ↦ named_group g (A.lookup_group g) ] >>= λ n.
          ok (record o { gid = n }))

  abbrev owner_of : Bytes × Option Bytes → Result OwnerError (Option Owner)
  owner_of (u, none) = user_part u true >>= λ o. ok (some o)
  owner_of (u, some g) = user_part u false >>= λ o. group_part g o >>= λ p. ok (some p)

  unfoldable pub parse_chown : Bytes → Result OwnerError (Option Owner)
  parse_chown s = if is_nil s then ok none else owner_of (cut b':' s)
