-- ===== src/Admin/Commit/Steps.antt =====
-- What the steps of `Install` leave: the package on each peer, and a committed definition.
use mathlib.Core.Path.{subst}
use fabric_network_builder.Prelude.{
  List, [], ◌∷◌, true, not, ◌&&◌, ◌≡◌, Bytes, bytes_eq, bytes_eq_iff, ℤ, eqb_ℤ, All, Bool-cases,
  inl, inr, arith,
}
use fabric_network_builder.Admin.Service.{Service, Definition}
use fabric_network_builder.Admin.Service.Laws.{Laws}
use fabric_network_builder.Exec.Laws.{
  Any, Valid, IsStable, >>=-Valid, raise-Valid, if-Valid, All-stable,
}
use fabric_network_builder.Admin.Network.{Network, State, first_index}
use fabric_network_builder.Admin.Network.Laws.{
  progress, World, Peer, Peer-stable, call-Valid, printf-Valid, dialed-Valid, for_each_org-Valid,
  eqb_ℤ-eq,
}
use fabric_network_builder.Admin.Install.{PkgFile, has_package, install_once, install_on}
use fabric_network_builder.Admin.Commit.Moves.{define-start}
use fabric_network_builder.Admin.Commit.{check_committed, committed_once, wait_committed, define}

has_package-All :
    (P : Bytes → Type 0) (ids : List Bytes) (id : Bytes)
    → has_package ids id ≡ true
    → All P ids
    → P id
unfolding has_package
has_package-All P [] id e h = ground arith
has_package-All P (c ∷ ids) id e (p, ps) = elim (Bool-cases (bytes_eq c id)) [
  | inl same ↦ subst P ((bytes_eq_iff c id).0 same) p
  | inr differ ↦ has_package-All P ids id (ground arith) ps
]

module _ {F : Service} (W : Laws F) where
  install_once-Valid :
      (p : F.Conn) (f : PkgFile)
      → W.id_of f.bytes ≡ f.id
      → Valid (progress W) Any (install_once p f) (λ u. World W (W.HasPackage p f.id))
  unfolding install_once
  install_once-Valid p f same = >>=-Valid (call-Valid W (W.query_installed p)) (λ ids.
      if-Valid (has_package ids f.id)
        (λ there.
          printf-Valid W (W.HasPackage p f.id) _
            (λ s. has_package-All (λ id. W.HasPackage p id s.world) ids f.id there))
        (λ absent. >>=-Valid (printf-Valid W (λ w. Unit {0}) _ (λ s h. tt)) (λ u.
          >>=-Valid (call-Valid W (W.install p f.bytes)) (λ id.
            printf-Valid W (W.HasPackage p f.id) _
              (λ s. subst (λ i. W.HasPackage p i s.world) same)))))

  pub install_on-Valid :
      (n : Network) (f : PkgFile) (i j : ℤ)
      → W.id_of f.bytes ≡ f.id
      → Valid (progress W) Any (install_on n f i j) (λ u. Peer W (λ p. W.HasPackage p f.id) i j)
  unfolding install_on
  install_on-Valid n f i j same =
      dialed-Valid W (λ p. W.HasPackage p f.id) n _ i j (λ p. install_once-Valid p f same)

  committed_once-Valid :
      (p : F.Conn) (def : Definition F.Policy)
      → Valid
          (progress W)
          Any
          (committed_once p def)
          (λ u. World W (W.IsDefined p def.channel_name def.name def.version def.sequence))
  unfolding committed_once
  committed_once-Valid p def =
      >>=-Valid (call-Valid W (W.query_committed p def.channel_name def.name)) (λ r. checked r)
    where
      checked :
          (r : Bytes × ℤ)
          → Valid
              (progress W)
              (World W (W.IsDefined p def.channel_name def.name r.0 r.1))
              (check_committed (F.host p) def r)
              (λ u. World W (W.IsDefined p def.channel_name def.name def.version def.sequence))
      checked (version, seq) =
          if-Valid (not (bytes_eq version def.version && eqb_ℤ seq def.sequence))
            (λ other. raise-Valid _)
            (λ same.
              printf-Valid W (W.IsDefined p def.channel_name def.name def.version def.sequence) _
                (λ s h.
                  let versions : bytes_eq version def.version ≡ true = ground arith in
                  let sequences : eqb_ℤ seq def.sequence ≡ true = ground arith in
                  subst (λ v. W.IsDefined p def.channel_name def.name v def.sequence s.world)
                    ((bytes_eq_iff version def.version).0 versions)
                    (subst (λ q. W.IsDefined p def.channel_name def.name version q s.world)
                      (eqb_ℤ-eq seq def.sequence sequences) h)))

  wait_committed-Valid :
      (n : Network) (def : Definition F.Policy) (i j : ℤ)
      → Valid
          (progress W)
          Any
          (wait_committed n def i j)
          (λ u. Peer W (λ p. W.IsDefined p def.channel_name def.name def.version def.sequence) i j)
  unfolding wait_committed
  wait_committed-Valid n def i j =
      dialed-Valid W (λ p. W.IsDefined p def.channel_name def.name def.version def.sequence) n _ i j
        (λ p. committed_once-Valid p def)

  -- The first peer of each org has the definition.
  abbrev pub HasDefinition : Network → Bytes → Bytes → Bytes → ℤ → State F → Type 0
  HasDefinition n channel name version seq s =
      All
        (λ i.
          Peer W (λ p. W.IsDefined p channel name version seq) i (first_index n.vars.peer_indices)
            s)
        n.vars.org_indices

  -- Each peer has the package.
  abbrev pub HavePackage : Network → Bytes → State F → Type 0
  HavePackage n id s =
      All (λ i. All (λ j. Peer W (λ p. W.HasPackage p id) i j s) n.vars.peer_indices)
        n.vars.org_indices

  pub define-Valid :
      (n : Network) (def : Definition F.Policy)
      → Valid
          (progress W)
          Any
          (define n def)
          (λ u. HasDefinition n def.channel_name def.name def.version def.sequence)
  unfolding define
  define-Valid n def = define-start W n def (
      for_each_org-Valid W
        (Peer-stable W (λ p. W.IsDefined p def.channel_name def.name def.version def.sequence)
          (λ p. W.defined_stable p def.channel_name def.name def.version def.sequence))
        (wait_committed-Valid n def) n)

  pub packages_stable : (n : Network) (id : Bytes) → IsStable (progress W) (HavePackage n id)
  packages_stable n id = All-stable (progress W) n.vars.org_indices (λ i.
      All-stable (progress W) n.vars.peer_indices
        (Peer-stable W (λ p. W.HasPackage p id) (λ p. W.package_stable p id) i))

  pub definitions_stable :
      (n : Network) (channel name version : Bytes) (seq : ℤ)
      → IsStable (progress W) (HasDefinition n channel name version seq)
  definitions_stable n channel name version seq = All-stable (progress W) n.vars.org_indices (λ i.
      Peer-stable W (λ p. W.IsDefined p channel name version seq)
        (λ p. W.defined_stable p channel name version seq) i (first_index n.vars.peer_indices))
