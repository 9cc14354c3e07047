-- ===== src/Certs/Leaves/Issuer.antt =====
-- The leaves and the CA of one are found without a change of a file, and the CA is the leaf's issuer,
-- with the key of its certificate.
use fabric_network_builder.Prelude.{
  List, [], ◌∷◌, true, false, ◌≡◌, refl, ap, Option, none, some, Bytes, bytes_eq, bytes_eq→eq,
  Result, ok, err,
}
use fabric_network_builder.Prelude.Sort.{sort_strings}
use fabric_network_builder.Exec.{◌>>=◌}
use fabric_network_builder.Exec.Laws.{
  Any, Valid, >>=-Valid, pure-Valid, raise-Valid, if-Valid, either_way-Valid, given, weaken,
}
use fabric_network_builder.Certs.Environment.{Machine, Cert}
use fabric_network_builder.Certs.{State, Kind, Action, CertError, cannot_reissue, no_ca_dir}
use fabric_network_builder.Certs.Files.{
  Laws, same, ask-Valid, call-Valid, returned-Valid, collect-Valid,
}
use fabric_network_builder.Certs.Leaves.{
  Ca, settled, load_cert, load_key, first_leaf, discover_kind, discover_node, discover_parent,
  discover, find_ca, find_key, is_pair, with_ca, search_ca, resolve_ca, is_directory, parse_key,
  node_parents, key_of, signer_of, with_key,
}

module _ {F : Machine} where
  -- The CA's certificate names the leaf's issuer as its subject, and the public part of its key is
  -- the certificate's.
  abbrev pub IsIssuer : Cert F.PublicKey F.Extension → Ca F → Type 0
  IsIssuer leaf ca = record {
    0 : ca.cert.raw_subject ≡ leaf.raw_issuer;
    1 : Bytes;
    2 : F.marshal_public_key ca.cert.public_key ≡ ok «1»;
    3 : F.marshal_public_key (F.public ca.key) ≡ ok «1»;
  }

module _ {F : Machine} (W : Laws F) where
  is_pair-ok :
      (ca_pub : Bytes) (key : F.Signer)
      → is_pair F ca_pub key ≡ true
      → F.marshal_public_key (F.public key) ≡ ok ca_pub
  unfolding is_pair
  is_pair-ok ca_pub key e = same_key (F.marshal_public_key (F.public key)) e
    where
      same_key :
          (r : Result Bytes Bytes)
          → elim r [ ok p ↦ bytes_eq p ca_pub | err m ↦ false ] ≡ true
          → r ≡ ok ca_pub
      same_key (ok p) e = ap ok (bytes_eq→eq p ca_pub e)
      same_key (err m) e = cc

  forget :
      {A : Type 0} {Q : A → State F → Type 0} {m : Action F A}
      → Valid (same W) Any m Q
      → Valid (same W) Any m (λ a. Any)
  forget hm = weaken (λ s p. p) (λ a s q. tt) hm

  -- What follows a step of which nothing is to be known.
  sequel :
      {A B : Type 0} {Q : A → State F → Type 0} {R : B → State F → Type 0} {m : Action F A}
      {k : A → Action F B}
      → Valid (same W) Any m Q
      → ((a : A) → Valid (same W) Any (k a) R)
      → Valid (same W) Any (m >>= k) R
  sequel hm hk = >>=-Valid (forget hm) hk

  settled-Valid :
      {A : Type 0} (context : CertError → CertError) (r : Result CertError A)
      → Valid (same W) Any (settled {F = F} context r) (λ a. Any)
  settled-Valid context (ok a) = pure-Valid a (λ s p. tt)
  settled-Valid context (err e) = raise-Valid (context e)

  pub load_cert-Valid : (path : Bytes) → Valid (same W) Any (load_cert path) (λ c. Any)
  unfolding load_cert
  load_cert-Valid path = sequel (call-Valid W (W.read_file path)) (λ b. settled-Valid _ _)

  signer_of-Valid : (k : Option F.Signer) → Valid (same W) Any (signer_of k) (λ key. Any)
  signer_of-Valid none = raise-Valid _
  signer_of-Valid (some key) = pure-Valid key (λ s p. tt)

  key_of-Valid :
      (block : Option (Bytes × Bytes)) → Valid (same W) Any (key_of {F = F} block) (λ key. Any)
  key_of-Valid none = raise-Valid _
  key_of-Valid (some (type, der)) =
      sequel (returned-Valid W (λ r c. Unit {0}) (parse_key F type der)) (λ k. signer_of-Valid _)

  load_key-Valid : (path : Bytes) → Valid (same W) Any (load_key path) (λ key. Any)
  unfolding load_key
  load_key-Valid path = sequel (call-Valid W (W.read_file path)) (λ b. key_of-Valid _)

  first_leaf-Valid :
      (node_dir : Bytes) (kind : Kind) (paths : List Bytes)
      → Valid (same W) Any (first_leaf node_dir kind paths) (λ leaves. Any)
  unfolding first_leaf
  first_leaf-Valid node_dir kind [] = pure-Valid [] (λ s p. tt)
  first_leaf-Valid node_dir kind (path ∷ paths) =
      >>=-Valid (load_cert-Valid path) (λ c. pure-Valid _ (λ s p. tt))

  discover_kind-Valid :
      (node_dir : Bytes) (kind : Kind)
      → Valid (same W) Any (discover_kind node_dir kind) (λ leaves. Any)
  unfolding discover_kind
  discover_kind-Valid node_dir kind =
      sequel (call-Valid W (W.glob _)) (λ certs. first_leaf-Valid node_dir kind _)

  discover_node-Valid :
      (kinds : List Kind) (node_dir : Bytes)
      → Valid (same W) Any (discover_node kinds node_dir) (λ leaves. Any)
  unfolding discover_node
  discover_node-Valid kinds node_dir = sequel (ask-Valid W (W.stat node_dir)) (λ r.
      if-Valid (is_directory r)
        (λ e. collect-Valid W (discover_kind node_dir) kinds (discover_kind-Valid node_dir))
        (λ e. pure-Valid [] (λ s p. tt)))

  discover_parent-Valid :
      (crypto_config : Bytes) (kinds : List Kind) (parent : Bytes)
      → Valid (same W) Any (discover_parent crypto_config kinds parent) (λ leaves. Any)
  unfolding discover_parent
  discover_parent-Valid crypto_config kinds parent = sequel (call-Valid W (W.glob _)) (λ dirs.
      collect-Valid W (discover_node kinds) (sort_strings dirs) (discover_node-Valid kinds))

  pub discover-Valid :
      (crypto_config : Bytes) (kinds : List Kind)
      → Valid (same W) Any (discover crypto_config kinds) (λ leaves. Any)
  unfolding discover
  discover-Valid crypto_config kinds =
      collect-Valid W (discover_parent crypto_config kinds) node_parents
        (discover_parent-Valid crypto_config kinds)

  abbrev FoundCa : Cert F.PublicKey F.Extension → Option (Cert F.PublicKey F.Extension) → Type 0
  FoundCa leaf none = Unit
  FoundCa leaf (some ca) = ca.raw_subject ≡ leaf.raw_issuer

  abbrev FoundKey : Bytes → Option F.Signer → Type 0
  FoundKey ca_pub none = Unit
  FoundKey ca_pub (some key) = is_pair F ca_pub key ≡ true

  find_ca-Valid :
      (leaf : Cert F.PublicKey F.Extension) (paths : List Bytes)
      → Valid (same W) Any (find_ca leaf paths) (λ r s. FoundCa leaf r)
  unfolding find_ca
  find_ca-Valid leaf [] = pure-Valid none (λ s p. tt)
  find_ca-Valid leaf (path ∷ paths) = >>=-Valid (load_cert-Valid path) (λ c.
      if-Valid (bytes_eq c.raw_subject leaf.raw_issuer)
        (λ e. pure-Valid (some c) (λ s p. bytes_eq→eq _ _ e)) (λ e. find_ca-Valid leaf paths))

  find_key-Valid :
      (ca_pub : Bytes) (paths : List Bytes)
      → Valid (same W) Any (find_key ca_pub paths) (λ r s. FoundKey ca_pub r)
  unfolding find_key
  find_key-Valid ca_pub [] = pure-Valid none (λ s p. tt)
  find_key-Valid ca_pub (path ∷ paths) =
      either_way-Valid (load_key-Valid path)
        (λ key.
          if-Valid (is_pair F ca_pub key) (λ e. pure-Valid (some key) (λ s p. e))
            (λ e. find_key-Valid ca_pub paths))
        (λ e. find_key-Valid ca_pub paths)

  with_key-Valid :
      (ca_dir ca_pub : Bytes) (leaf ca : Cert F.PublicKey F.Extension) (key : Option F.Signer)
      → ca.raw_subject ≡ leaf.raw_issuer
      → F.marshal_public_key ca.public_key ≡ ok ca_pub
      → FoundKey ca_pub key
      → Valid (same W) Any (with_key ca_dir ca key) (λ r s. IsIssuer leaf r)
  with_key-Valid ca_dir ca_pub leaf ca none subject marshalled found = raise-Valid _
  with_key-Valid ca_dir ca_pub leaf ca (some key) subject marshalled found =
      pure-Valid _ (λ s p. (subject, ca_pub, marshalled, is_pair-ok ca_pub key found))

  with_ca-Valid :
      (ca_dir : Bytes) (leaf : Cert F.PublicKey F.Extension)
      (ca : Option (Cert F.PublicKey F.Extension))
      → FoundCa leaf ca
      → Valid (same W) Any (with_ca ca_dir leaf ca) (λ r s. IsIssuer leaf r)
  unfolding with_ca
  with_ca-Valid ca_dir leaf none found = raise-Valid _
  with_ca-Valid ca_dir leaf (some ca) found =
      >>=-Valid
        (weaken (λ s p. refl) (λ a s q. q)
          (returned-Valid W (λ r c. F.marshal_public_key ca.public_key ≡ r)
            (F.marshal_public_key ca.public_key)))
        (λ ca_pub. given (λ marshalled. sequel (call-Valid W (W.glob _)) (λ keys.
          >>=-Valid (find_key-Valid ca_pub (sort_strings keys))
            (λ key. given (with_key-Valid ca_dir ca_pub leaf ca key found marshalled)))))

  search_ca-Valid :
      (ca_dir : Bytes) (leaf : Cert F.PublicKey F.Extension)
      → Valid (same W) Any (search_ca ca_dir leaf) (λ r s. IsIssuer leaf r)
  unfolding search_ca
  search_ca-Valid ca_dir leaf = sequel (call-Valid W (W.glob _)) (λ pems.
      >>=-Valid (find_ca-Valid leaf (sort_strings pems))
        (λ ca. given (with_ca-Valid ca_dir leaf ca)))

  pub resolve_ca-Valid :
      (ca_dir : Bytes) (leaf : Cert F.PublicKey F.Extension)
      → Valid (same W) Any (resolve_ca ca_dir leaf) (λ r s. IsIssuer leaf r)
  unfolding resolve_ca
  resolve_ca-Valid ca_dir leaf = sequel (ask-Valid W (W.stat ca_dir)) (λ r.
      if-Valid (is_directory r) (λ e. search_ca-Valid ca_dir leaf)
        (λ e. raise-Valid (cannot_reissue (no_ca_dir ca_dir))))
