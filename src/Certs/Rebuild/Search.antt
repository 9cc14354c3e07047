-- ===== src/Certs/Rebuild/Search.antt =====
-- The search of a free name for a backup ends.
use mathlib.Core.Path.{subst}
use fabric_network_builder.Prelude.{
  ℕ, zero, suc, ◌+◌, ◌<◌, Bool, true, false, if◌then◌else◌, ◌≡◌, refl, ap, ◌∙◌, ◌⊎◌, inl, inr,
  Bytes, codes, ◌++◌, Result, ok, err, arith,
}
use fabric_network_builder.Exec.{pure}
use fabric_network_builder.Certs.Environment.{Machine, not_exist}
use fabric_network_builder.Certs.{State, Action, CertError}
use fabric_network_builder.Certs.Rebuild.{
  backup_path, dated_backup_path, search_backup, dated_backup, numbered_backup, is_not_exist,
}

-- The names that are tried, by the number of names tried before.
abbrev pub candidate : Bytes → Bytes → ℕ → Bytes
candidate path ts zero = dated_backup path ts
candidate path ts (suc n) = numbered_backup path ts (suc n)

-- An action returns a value.
abbrev pub Returns : {F : Machine} {A : Type 0} → Result CertError A × State F → Type 0
Returns {A = A} r = record { 0 : A; 1 : r.0 ≡ ok «0» }

-- What stat says of the other paths does not change when it is asked, nor when the clock is.
module _ {F : Machine}
    (stats : (p q : Bytes) (w : F.World) → (F.stat q (F.stat p w).1).0 ≡ (F.stat q w).0) where
  found_or :
      (p : Bytes) (m : Action F Bytes) (b : Bool) (s : State F)
      → (b ≡ true) ⊎ Returns {F = F} (m s)
      → Returns {F = F} ((if b then pure p else m) s)
  found_or p m true s h = (p, refl)
  found_or p m false s (inl e) = cc e
  found_or p m false s (inr h) = h

  search_backup-Returns :
      (fuel : ℕ) (path ts : Bytes) (k n : ℕ) (s : State F)
      → k < fuel
      → (F.stat (candidate path ts (n + k)) s.world).0 ≡ err not_exist
      → Returns {F = F} (search_backup fuel path ts (candidate path ts n) (suc n) s)
  unfolding search_backup
  search_backup-Returns zero path ts k n s h missing = elim h [ ]
  search_backup-Returns (suc fuel) path ts zero n s h missing =
      let here : n + 0 ≡ n = omega arith in
      found_or (candidate path ts n) _ (is_not_exist (F.stat (candidate path ts n) s.world).0) _ (
        inl (
          ap is_not_exist (
            subst (λ (i : ℕ). (F.stat (candidate path ts i) s.world).0 ≡ err not_exist) here
              missing)))
  search_backup-Returns (suc fuel) path ts (suc k) n s h missing =
      let there : n + suc k ≡ suc n + k = omega arith in
      found_or (candidate path ts n) _ (is_not_exist (F.stat (candidate path ts n) s.world).0) _ (
        inr (
          search_backup-Returns fuel path ts k (suc n) _ (omega arith) (
            stats (candidate path ts n) (candidate path ts (suc n + k)) s.world
            ∙ subst (λ (i : ℕ). (F.stat (candidate path ts i) s.world).0 ≡ err not_exist) there
                missing)))

-- BackupPath returns a path, where the fuel exceeds the number of names to try before one of which
-- stat says, whatever the timestamp, that there is no file, and where what stat says of a path does
-- not change when stat or the clock is asked.
pub backup_path-Returns :
    {F : Machine} (fuel k : ℕ) (path : Bytes) (s : State F)
    → ((p q : Bytes) (w : F.World) → (F.stat q (F.stat p w).1).0 ≡ (F.stat q w).0)
    → ((q : Bytes) (w : F.World) → (F.stat q (F.clock w).1).0 ≡ (F.stat q w).0)
    → k < fuel
    → ((ts : Bytes) → (F.stat (candidate path ts k) s.world).0 ≡ err not_exist)
    → Returns {F = F} (backup_path fuel path s)
unfolding backup_path dated_backup_path
backup_path-Returns {F = F} fuel k path s stats clocks h missing =
    found_or stats (path ++ codes ".bak") (dated_backup_path fuel path)
      (is_not_exist (F.stat (path ++ codes ".bak") s.world).0) _
      (inr (
        search_backup-Returns stats fuel path (stamp s) k 0 _ h (
          subst (λ (i : ℕ). (F.stat (candidate path (stamp s) i) (later s)).0 ≡ err not_exist)
            (omega arith) (clocks _ _ ∙ stats _ _ _ ∙ missing (stamp s)))))
  where
    asked : State F → F.World
    asked s = (F.stat (path ++ codes ".bak") s.world).1

    later : State F → F.World
    later s = (F.clock (asked s)).1

    stamp : State F → Bytes
    stamp s = F.format (F.clock (asked s)).0 (codes "20060102150405")
