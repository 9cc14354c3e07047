-- ===== src/Admin/Commit/Done.antt =====
-- A success of `Install` means that every peer has the package of each chaincode and that each org
-- saw its definition committed.
use fabric_network_builder.Prelude.{List, ◌≡◌, Bytes, ℤ, ok, All}
use fabric_network_builder.Admin.Service.{Service, CollectionConfig}
use fabric_network_builder.Admin.Service.Laws.{Laws, Answers-sharper}
use fabric_network_builder.Exec.{◌>>=◌, ◌>>◌}
use fabric_network_builder.Exec.Laws.{
  Any, Valid, IsStable, weaken, both, frame, >>=-Valid, run-Valid, given, for_each-All, All-imp,
  All-stable,
}
use fabric_network_builder.Admin.Network.{Network, State, printf, next_sequence_number, all_good}
use fabric_network_builder.Admin.Network.Laws.{
  progress, Peer-stable, call-Valid, printf-Valid, for_each_peer-Valid,
}
use fabric_network_builder.Admin.Install.{
  InstallOptions, chaincode_label, package_id, next_sequence,
}
use fabric_network_builder.Admin.Commit.Steps.{
  install_on-Valid, define-Valid, HasDefinition, HavePackage, packages_stable, definitions_stable,
}
use fabric_network_builder.Admin.Commit.Moves.{
  next_sequence-Moves, collections-Moves, application_policy-Moves,
}
use fabric_network_builder.Admin.Commit.{
  definition_of, package_path, pkg_file, define, install_one, install,
}

-- The ID of the package in a chaincode's file is the one that `PackageID` computes.
abbrev pub Labelled : {F : Service} → Laws F → InstallOptions → Bytes → Type 0
Labelled {F = F} W o name =
    (w : F.World) (pkg : Bytes)
    → (F.read_file (package_path F o (chaincode_label name o.version)) w).0 ≡ ok pkg
    → W.id_of pkg ≡ package_id F (chaincode_label name o.version) pkg

module _ {F : Service} (W : Laws F) where
  -- The package that was read from the chaincode's file is on every peer, and the first peer of
  -- each org has a definition of the chaincode with the version.
  abbrev pub IsInstalled : Network → InstallOptions → Bytes → State F → Type 0
  IsInstalled n o name s = record {
    pkg : Bytes;
    seq : ℤ;
    was_read : record {
      0 : F.World;
      1 : (F.read_file (package_path F o (chaincode_label name o.version)) «0»).0 ≡ ok pkg;
    };
    packages : HavePackage W n (package_id F (chaincode_label name o.version) pkg) s;
    definitions : HasDefinition W n o.channel name o.version seq s;
  }

  IsInstalled-stable :
      (n : Network) (o : InstallOptions) (name : Bytes)
      → IsStable (progress W) (IsInstalled n o name)
  IsInstalled-stable n o name s t l i = record {
    pkg = i.pkg;
    seq = i.seq;
    was_read = i.was_read;
    packages = packages_stable W n _ s t l i.packages;
    definitions = definitions_stable W n o.channel name o.version i.seq s t l i.definitions;
  }

  define_next-Valid :
      (n : Network) (o : InstallOptions) (policy : F.Policy)
      (cols : List (CollectionConfig F.Policy)) (name id : Bytes)
      → Valid
          (progress W)
          Any
          (next_sequence n o.channel name >>= λ seq.
            printf (next_sequence_number seq) >> define n (definition_of o policy cols name seq id))
          (λ u s. record { 0 : ℤ; 1 : HasDefinition W n o.channel name o.version «0» s })
  unfolding definition_of
  define_next-Valid n o policy cols name id =
      >>=-Valid (next_sequence-Moves W n o.channel name) (λ seq.
        >>=-Valid (printf-Valid W (λ w. Unit {0}) _ (λ s h. tt)) (λ u.
          weaken (λ s h. h) (λ u s d. (seq, d))
            (define-Valid W n (definition_of o policy cols name seq id))))

  install_one-Valid :
      (n : Network) (o : InstallOptions) (policy : F.Policy)
      (cols : List (CollectionConfig F.Policy)) (name : Bytes)
      → Labelled W o name
      → Valid (progress W) Any (install_one n o policy cols name) (λ u. IsInstalled n o name)
  unfolding install_one definition_of pkg_file
  install_one-Valid n o policy cols name same =
      >>=-Valid
        (call-Valid W (
          Answers-sharper
            (λ pkg. record {
              0 : F.World;
              1 : (F.read_file (package_path F o (chaincode_label name o.version)) «0»).0 ≡ ok pkg;
            })
            (λ w pkg e. (w, e)) (W.read_file (package_path F o (chaincode_label name o.version)))))
        (λ pkg. given (λ (w, read).
          both (λ u. packages_stable W n _)
            (for_each_peer-Valid W (Peer-stable W _ (λ p. W.package_stable p _))
              (λ i j.
                install_on-Valid W n (pkg_file F (chaincode_label name o.version) pkg) i j
                  (same w pkg read))
              n)
            (λ u. define_next-Valid n o policy cols name _)
            (λ u v s r q. record {
              pkg = pkg;
              seq = r.0;
              was_read = (w, read);
              packages = q;
              definitions = r.1;
            })))

-- When `Install` returns without an error, for each chaincode of the options there is a package that
-- was read from its file, such that the network has a connection to each peer of each org and that
-- peer has the package, and a sequence number, such that the ledger of the first peer of each org
-- has a committed definition of the chaincode on the channel, with the version and that number. The
-- condition is that the label inside the package file of each chaincode is the one in its name.
pub install-IsInstalled :
    {F : Service} (W : Laws F) (n : Network) (o : InstallOptions) (s t : State F)
    → All (Labelled W o) o.names
    → install n o s ≡ (ok tt, t)
    → All (λ name. IsInstalled W n o name t) o.names
unfolding install
install-IsInstalled W n o s t same done =
    run-Valid s
      (>>=-Valid (collections-Moves W n) (λ cols.
        >>=-Valid (application_policy-Moves W n) (λ policy.
          >>=-Valid
            (for_each-All (install_one n o policy cols) o.names (IsInstalled-stable W n o)
              (All-imp o.names (install_one-Valid W n o policy cols) same))
            (λ u.
              weaken (λ s h. (tt, h)) (λ u s q. q.1)
                (frame (λ s. All (λ name. IsInstalled W n o name s) o.names)
                  (All-stable (progress W) o.names (IsInstalled-stable W n o))
                  (printf-Valid W (λ w. Unit {0}) all_good (λ s h. tt)))))))
      done
