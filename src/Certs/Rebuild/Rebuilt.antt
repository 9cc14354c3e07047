-- ===== src/Certs/Rebuild/Rebuilt.antt =====
-- What `Rebuild` makes, and where `BackupPath` points.
use fabric_network_builder.Prelude.{
  ℕ, zero, suc, ◌*◌, ◌^◌, ◌++◌, true, false, if◌then◌else◌, ◌≡◌, refl, Bytes, codes, ℤ, pos, ltb_ℤ,
  ◌-ℤ◌, none, Result, ok, err, arith,
}
use fabric_network_builder.Exec.{pure}
use fabric_network_builder.Exec.Laws.{
  Any, Valid, >>=-Valid, pure-Valid, raise-Valid, if-Valid, given, weaken,
}
use fabric_network_builder.Certs.Environment.{
  Machine, Cert, Template, SignatureAlgorithm, StatError, not_exist, not_readable, FileInfo,
}
use fabric_network_builder.Certs.{Action, CertError, fuel_spent}
use fabric_network_builder.Certs.Files.{Laws, On, same, ask-Valid, call-Valid, Contents, NoFile}
use fabric_network_builder.Certs.Rebuild.{
  rebuild, signing, signature_algorithm, template, valid_since, backup_path, dated_backup_path,
  search_backup, dated_backup, numbered_backup, is_not_exist,
}

-- No file has the path.
abbrev pub IsFree : Bytes → Contents → Type 0
IsFree p c = c p ≡ none

module _ (F : Machine) where
  -- The certificate that the CA's key made of a template with the old one's subject and extensions,
  -- for the old one's key, that is valid up to the new last time and not before the CA is.
  pub record IsRebuilt (old ca : Cert F.PublicKey F.Extension) (key : F.Signer) (not_after : ℤ)
      (b : Bytes) : Type 0 where
    pub made : Template F.Extension
    pub subject : made.subject ≡ old.raw_subject
    pub extensions : made.extra_extensions ≡ old.extensions
    pub until : made.valid_to ≡ not_after
    pub since : ltb_ℤ made.valid_from ca.not_before ≡ false
    pub signed_by : signature_algorithm (F.type_of (F.public key)) ≡ ok made.algorithm
    pub der : Bytes
    pub world : F.World
    pub created : ok der ≡ (F.create_certificate made ca old.public_key key world).0
    pub encoded : b ≡ F.pem_encode (codes "CERTIFICATE") der

valid_since-late : (now ca_since : ℤ) → ltb_ℤ (valid_since now ca_since) ca_since ≡ false
unfolding valid_since
valid_since-late now ca_since = if_late (now -ℤ pos (300 * 10 ^ 9)) ca_since
  where
    if_late : (z c : ℤ) → ltb_ℤ (if ltb_ℤ z c then c else z) c ≡ false
    if_late z c = ground arith

module _ {F : Machine} (W : Laws F) where
  signing-Valid :
      (r : Result CertError SignatureAlgorithm)
      → Valid (same W) Any (signing {F = F} r) (λ alg s. r ≡ ok alg)
  signing-Valid (ok alg) = pure-Valid alg (λ s p. refl)
  signing-Valid (err e) = raise-Valid e

  pub rebuild-Valid :
      (old ca : Cert F.PublicKey F.Extension) (key : F.Signer) (not_after : ℤ)
      → Valid
          (same W)
          Any
          (rebuild old ca key not_after)
          (λ b s. IsRebuilt F old ca key not_after b)
  unfolding rebuild
  rebuild-Valid old ca key not_after =
      >>=-Valid (signing-Valid (signature_algorithm (F.type_of (F.public key)))) (λ alg.
        given (λ signed_by.
          >>=-Valid (weaken (λ s p. p) (λ a s q. tt) (call-Valid W (W.rand_int (2 ^ 159))))
            (λ serial. >>=-Valid (weaken (λ s p. p) (λ a s q. tt) (ask-Valid W W.clock)) (λ now.
              >>=-Valid (call-Valid W (W.create_certificate _ ca old.public_key key)) (λ der.
                pure-Valid _ (λ s q. record {
                  made = template old (valid_since now ca.not_before) not_after alg serial;
                  subject = unfold template in refl;
                  extensions = unfold template in refl;
                  until = unfold template in refl;
                  since = unfold template in (valid_since-late now ca.not_before);
                  signed_by = unfold template in signed_by;
                  der = der;
                  world = q.1.0;
                  created = q.1.1;
                  encoded = refl;
                }))))))

  is_not_exist-eq : (r : Result StatError FileInfo) → is_not_exist r ≡ true → r ≡ err not_exist
  is_not_exist-eq (ok fi) e = cc
  is_not_exist-eq (err not_exist) e = refl
  is_not_exist-eq (err (not_readable m)) e = cc

  -- A name of which stat says that there is no file, and any other action where there may be one.
  missing_or :
      (p : Bytes) (r : Result StatError FileInfo) (m : Action F Bytes)
      → Valid (same W) Any m (λ q. On W (IsFree q))
      → Valid
          (same W)
          (On W (NoFile p r))
          (if is_not_exist r then pure p else m)
          (λ q. On W (IsFree q))
  missing_or p r m hm =
      if-Valid (is_not_exist r) (λ e. pure-Valid p (λ s h. h (is_not_exist-eq r e)))
        (λ e. weaken (λ s h. tt) (λ q s h. h) hm)

  search_backup-Valid :
      (fuel : ℕ) (path ts bak : Bytes) (n : ℕ)
      → Valid (same W) Any (search_backup fuel path ts bak n) (λ q. On W (IsFree q))
  unfolding search_backup
  search_backup-Valid zero path ts bak n = raise-Valid fuel_spent
  search_backup-Valid (suc fuel) path ts bak n = >>=-Valid (ask-Valid W (W.stat bak)) (λ r.
      weaken (λ s q. q.0) (λ q s h. h)
        (missing_or bak r (search_backup fuel path ts (numbered_backup path ts n) (suc n))
          (search_backup-Valid fuel path ts (numbered_backup path ts n) (suc n))))

  dated_backup_path-Valid :
      (fuel : ℕ) (path : Bytes)
      → Valid (same W) Any (dated_backup_path fuel path) (λ q. On W (IsFree q))
  unfolding dated_backup_path
  dated_backup_path-Valid fuel path =
      >>=-Valid (weaken (λ s p. p) (λ a s q. tt) (ask-Valid W W.clock)) (λ now.
        search_backup-Valid fuel path (F.format now (codes "20060102150405"))
          (dated_backup path (F.format now (codes "20060102150405"))) 1)

  pub backup_path-Valid :
      (fuel : ℕ) (path : Bytes) → Valid (same W) Any (backup_path fuel path) (λ q. On W (IsFree q))
  unfolding backup_path
  backup_path-Valid fuel path = >>=-Valid (ask-Valid W (W.stat (path ++ codes ".bak"))) (λ r.
      weaken (λ s q. q.0) (λ q s h. h)
        (missing_or (path ++ codes ".bak") r (dated_backup_path fuel path)
          (dated_backup_path-Valid fuel path)))
