-- ===== src/Certs/Reissue/Renewed.antt =====
-- What a leaf's renewal leaves in the files.
use mathlib.Core.Path.{subst}
use fabric_network_builder.Prelude.{
  ℕ, Bool, true, false, ◌≡◌, ◌≢◌, refl, sym, ap, ◌∙◌, Bytes, ℤ, ltb_ℤ, Option, none, some, Result,
  ok, err,
}
use fabric_network_builder.Exec.Laws.{
  Valid, >>=-Valid, pure-Valid, raise-Valid, if-Valid, weaken, Post,
}
use fabric_network_builder.Certs.Environment.{Machine, StatError, not_exist, not_readable, FileInfo}
use fabric_network_builder.Certs.{State, cannot_reissue, ca_expired, dry_run_leaf, renewed_leaf}
use fabric_network_builder.Certs.Files.{
  Laws, On, kept, reading, ask-Valid, call-Valid, printf-Valid, write-Valid, Contents, NoFile,
  FileRead, Came,
}
use fabric_network_builder.Certs.Leaves.{Leaf, Ca}
use fabric_network_builder.Certs.Leaves.Issuer.{IsIssuer, resolve_ca-Valid}
use fabric_network_builder.Certs.Rebuild.Rebuilt.{
  IsRebuilt, IsFree, rebuild-Valid, backup_path-Valid,
}
use fabric_network_builder.Certs.Reissue.Expiry.{new_expiry-le}
use fabric_network_builder.Certs.Reissue.{
  ReissueOptions, keep_backup, known, replace_cert, renew, reissue_one, new_expiry,
}

other_path : (c : Contents) (p x q : Bytes) → c p ≡ some x → c q ≡ none → p ≢ q
other_path c p x q held free e = cc (held, free, ap c e)

-- Another file holds what the certificate's file held, if backups are kept.
abbrev pub Backed : Bool → Bytes → Option Bytes → Contents → Type 0
Backed no_backup path before c =
    no_backup ≡ false
    → record { 0 : Bytes; 1 : Bytes; 2 : «0» ≢ path; 3 : before ≡ some «1»; 4 : c «0» ≡ some «1» }

-- The leaf's file holds its certificate, rebuilt by its issuer, which has not expired, up to the
-- chosen time; and the file that was there is kept, unless the options say otherwise.
pub record IsRenewed (F : Machine) (o : ReissueOptions) (now : ℤ) (l : Leaf F.PublicKey F.Extension)
    (before : Option Bytes) (c : Contents) : Type 0 where
  pub issuer : Ca F
  pub issued : IsIssuer l.cert issuer
  pub current : ltb_ℤ now issuer.cert.not_after ≡ true
  pub bounded : ltb_ℤ issuer.cert.not_after (new_expiry o now issuer.cert.not_after).0 ≡ false
  pub bytes : Bytes
  pub held : c l.cert_path ≡ some bytes
  pub rebuilt :
      IsRebuilt F l.cert issuer.cert issuer.key (new_expiry o now issuer.cert.not_after).0 bytes
  pub backed : Backed o.no_backup l.cert_path before c

module _ {F : Machine} (W : Laws F) (Protected : Bytes → Type 0) (fuel : ℕ) (o : ReissueOptions)
    (now : ℤ) where
  abbrev At : Bytes → Option Bytes → Contents → Type 0
  At path before c = c path ≡ before

  -- What is known before and behind the write of a backup.
  abbrev Ready : Bytes → Option Bytes → Bytes → Bytes → Contents → Type 0
  Ready path before old bak c =
      IsFree bak c
      × ((FileRead path (ok old) c × Came W (F.read_file path) (ok old)) × At path before c)

  abbrev Kept : Bytes → Option Bytes → Contents → Type 0
  Kept path before c = At path before c × Backed o.no_backup path before c

  keep_backup-Valid :
      (path : Bytes) (perm : ℕ) (before : Option Bytes)
      → Valid
          (kept W Protected)
          (On W (At path before))
          (keep_backup fuel o now path perm)
          (λ u. On W (λ c. At path before c × Backed o.no_backup path before c))
  unfolding keep_backup
  keep_backup-Valid path perm before =
      if-Valid o.no_backup (λ e. pure-Valid tt (λ s at. (at, λ e'. cc (e, e'))))
        (λ e.
          >>=-Valid
            (reading W Protected (At path before)
              (λ old c. FileRead path (ok old) c × Came W (F.read_file path) (ok old))
              (call-Valid W (W.read_file path)))
            (λ old.
              >>=-Valid
                (reading W Protected
                  (λ c.
                    (FileRead path (ok old) c × Came W (F.read_file path) (ok old))
                    × At path before c)
                  IsFree (backup_path-Valid W fuel path))
                (λ bak.
                  write-Valid W Protected (Ready path before old bak) (Kept path before) bak old
                    perm (λ c facts p x _ held. other_path c p x bak held facts.0)
                    (λ c d facts others written.
                      let read : c path ≡ some old = facts.1.0.0 old refl in
                      let apart : path ≢ bak = other_path c path old bak read facts.0 in
                      (
                        others path apart ∙ facts.1.1,
                        λ e'. (bak, old, (λ q. apart (sym q)), sym facts.1.1 ∙ read, written),
                      )))))

  known-Valid :
      (I : Contents → Type 0) (r : Result StatError FileInfo)
      → Valid (kept W Protected) (On W I) (known {F = F} fuel o now r) (λ fi. On W I)
  known-Valid I (ok fi) = pure-Valid fi (λ s i. i)
  known-Valid I (err not_exist) = raise-Valid _
  known-Valid I (err (not_readable e)) = raise-Valid _

  replace_cert-Valid :
      (path b : Bytes) (before : Option Bytes)
      → ((p : Bytes) → Protected p → p ≢ path)
      → Valid
          (kept W Protected)
          (On W (At path before))
          (replace_cert fuel o now path b)
          (λ u. On W (λ c. (c path ≡ some b) × Backed o.no_backup path before c))
  unfolding replace_cert
  replace_cert-Valid path b before safe =
      >>=-Valid
        (weaken (λ s i. i) (λ r s i. i.1)
          (reading W Protected (At path before) (λ r c. NoFile path r c × Came W (F.stat path) r)
            (ask-Valid W (W.stat path))))
        (λ r. >>=-Valid (known-Valid (At path before) r) (λ fi.
          >>=-Valid (keep_backup-Valid path fi.perm before) (λ u.
            write-Valid W Protected (Kept path before)
              (λ c. (c path ≡ some b) × Backed o.no_backup path before c) path b fi.perm
              (λ c facts p x h held. safe p h)
              (λ c d facts others written. (
                written,
                λ e.
                    let (q, old, apart, was, held) = facts.1 e in
                    (q, old, apart, was, others q apart ∙ held),
              )))))

  -- The facts about a rebuilt certificate, once it is in its file.
  replaced :
      (l : Leaf F.PublicKey F.Extension) (issuer : Ca F) (before : Option Bytes) (b : Bytes)
      → IsIssuer l.cert issuer
      → ltb_ℤ now issuer.cert.not_after ≡ true
      → ((p : Bytes) → Protected p → p ≢ l.cert_path)
      → Valid
          (kept W Protected)
          (On W (λ c.
            IsRebuilt F l.cert issuer.cert issuer.key (new_expiry o now issuer.cert.not_after).0 b
            × At l.cert_path before c))
          (replace_cert fuel o now l.cert_path b)
          (λ u. On W (IsRenewed F o now l before))
  replaced l issuer before b issued current safe = record {
    run = λ s i.
        (weaken (λ s at. at)
            (λ u s facts. record {
              issuer = issuer;
              issued = issued;
              current = current;
              bounded = new_expiry-le o now issuer.cert.not_after;
              bytes = b;
              held = facts.0;
              rebuilt = i.0;
              backed = facts.1;
            })
            (replace_cert-Valid l.cert_path b before safe)).run
          s i.1;
  }

  renew-Valid :
      (l : Leaf F.PublicKey F.Extension) (issuer : Ca F) (before : Option Bytes)
      → IsIssuer l.cert issuer
      → ltb_ℤ now issuer.cert.not_after ≡ true
      → (o.dry_run ≡ false → (p : Bytes) → Protected p → p ≢ l.cert_path)
      → Valid
          (kept W Protected)
          (On W (At l.cert_path before))
          (renew fuel o now l issuer (new_expiry o now issuer.cert.not_after))
          (λ u. On W (λ c. o.dry_run ≡ false → IsRenewed F o now l before c))
  unfolding renew
  renew-Valid l issuer before issued current safe =
      if-Valid o.dry_run
        (λ e.
          weaken (λ s i. i) (λ u s i e'. cc (e, e'))
            (printf-Valid W Protected (At l.cert_path before) (
              dry_run_leaf l.node l.kind (new_expiry o now issuer.cert.not_after).0
                (new_expiry o now issuer.cert.not_after).1)))
        (λ e.
          >>=-Valid
            (reading W Protected (At l.cert_path before)
              (λ b c.
                IsRebuilt F l.cert issuer.cert issuer.key (new_expiry o now issuer.cert.not_after).0
                  b)
              (rebuild-Valid W l.cert issuer.cert issuer.key
                (new_expiry o now issuer.cert.not_after).0))
            (λ b. >>=-Valid (replaced l issuer before b issued current (safe e)) (λ u.
              weaken (λ s i. i) (λ u s i e'. i)
                (printf-Valid W Protected (IsRenewed F o now l before) (
                  renewed_leaf l.node l.kind (new_expiry o now issuer.cert.not_after).0
                    (new_expiry o now issuer.cert.not_after).1)))))

  pub reissue_one-Valid :
      (l : Leaf F.PublicKey F.Extension) (before : Option Bytes)
      → (o.dry_run ≡ false → (p : Bytes) → Protected p → p ≢ l.cert_path)
      → Valid
          (kept W Protected)
          (On W (At l.cert_path before))
          (reissue_one fuel o now l)
          (λ u. On W (λ c. o.dry_run ≡ false → IsRenewed F o now l before c))
  unfolding reissue_one
  reissue_one-Valid l before safe =
      >>=-Valid
        (reading W Protected (At l.cert_path before) (λ issuer c. IsIssuer l.cert issuer)
          (resolve_ca-Valid W l.ca_dir l.cert))
        (λ issuer.
          if-Valid (ltb_ℤ now issuer.cert.not_after)
            (λ current. record {
              run = λ s i. (renew-Valid l issuer before i.0 current safe).run s i.1;
            })
            (λ late. raise-Valid (cannot_reissue (ca_expired issuer.cert.not_after))))

-- When the renewal of a leaf succeeds and is no dry run, the leaf's file holds the certificate that
-- its issuer, a CA that has not expired and whose key is at hand, made for the old certificate's key,
-- of a template with the old certificate's subject and extensions, that is valid up to the time that
-- newExpiry chooses, which is not later than the CA's, and not from before the CA is; and unless
-- backups are turned off, another file holds what the leaf's file held.
pub reissue_one-IsRenewed :
    {F : Machine} (W : Laws F) (fuel : ℕ) (o : ReissueOptions) (now : ℤ)
    (l : Leaf F.PublicKey F.Extension) (s t : State F)
    → o.dry_run ≡ false
    → reissue_one fuel o now l s ≡ (ok tt, t)
    → IsRenewed F o now l (W.content s.world l.cert_path) (W.content t.world)
reissue_one-IsRenewed {F = F} W fuel o now l s t wet done =
    let outcome =
      (reissue_one-Valid W (λ p. p ≢ l.cert_path) fuel o now l (W.content s.world l.cert_path)
          (λ e p h. h)).run
        s refl in
    subst
      (Post (λ (u : Unit {0}).
        On W (λ c. o.dry_run ≡ false → IsRenewed F o now l (W.content s.world l.cert_path) c)))
      done outcome.1 wet
