-- ===== src/Examples/Laws.antt =====
-- The laws of the example's environment.
use mathlib.Core.Path.{subst}
use fabric_network_builder.Prelude.{
  ◌≡◌, ◌≢◌, refl, ap, sym, ◌∙◌, List, [], ◌∷◌, if◌then◌else◌, arith, Bytes, codes, bytes_eq,
  bytes_eq_iff, ℤ, pos, Result, ok, err, Bool-cases, inl, inr,
}
use fabric_network_builder.Admin.Service.Laws.{Laws, Answers, Nothing, Seen, Delivers}
use fabric_network_builder.Exec.Laws.{Progress}
use fabric_network_builder.Examples.Service.{
  In, here, there, All-In, Ledger, definition_in, the_id, ask, delivered, service,
}

abbrev pub grows : Progress Ledger
grows = record {
  Later = λ v w.
      ((x : Bytes) → In x v.packages → In x w.packages)
      × ((x : Bytes × Bytes × ℤ) → In x v.definitions → In x w.definitions)
      × ((x : Bytes) → In x v.channels → In x w.channels)
      × ((x : Bytes) → In x v.orderer_channels → In x w.orderer_channels)
      × ((x : Bytes) → In x v.ordered → In x w.ordered)
      × ((x : Bytes) → In x v.endorsed → In x w.endorsed)
      × ((x : Bytes) → In x v.committed → In x w.committed);
  here = (λ x i. i, λ x i. i, λ x i. i, λ x i. i, λ x i. i, λ x i. i, λ x i. i);
  via = λ f g. (
    λ x i. g.0 x (f.0 x i),
    λ x i. g.1 x (f.1 x i),
    λ x i. g.2 x (f.2 x i),
    λ x i. g.3 x (f.3 x i),
    λ x i. g.4 x (f.4 x i),
    λ x i. g.5 x (f.5 x i),
    λ x i. g.6 x (f.6 x i),
  );
}

abbrev same : {w : Ledger} → grows.Later w w
same = (λ x i. i, λ x i. i, λ x i. i, λ x i. i, λ x i. i, λ x i. i, λ x i. i)

-- A call that answers the same in each state and changes nothing.
pub asked : {A : Type 0} (a : A) → Answers grows (ask a) Nothing
asked a = record { at = λ w. (same, tt) }

definition_in-In :
    (name : Bytes) (ds : List (Bytes × Bytes × ℤ)) (version : Bytes) (seq : ℤ)
    → definition_in name ds ≡ ok (version, seq)
    → In (name, version, seq) ds
unfolding definition_in
definition_in-In name [] version seq e = absurd (err-ne-ok e)
  where
    err-ne-ok : {E A : Type 0} {x : E} {a : A} → err x ≢ ok a
    err-ne-ok e = cc
definition_in-In name ((m, v, q) ∷ ds) version seq e = elim (Bool-cases (bytes_eq m name)) [
  | inl found ↦
      let answer : Path (Result Bytes (Bytes × ℤ)) (ok (v, q)) (ok (version, seq)) =
        sym (ap (λ b. if b then ok (v, q) else definition_in name ds) found) ∙ e in
      let entry : Path (Bytes × Bytes × ℤ) (m, v, q) (name, version, seq) =
        cc (answer, (bytes_eq_iff m name).0 found) in
      subst (λ d. In d ((m, v, q) ∷ ds)) entry here
  | inr other ↦ there (
      definition_in-In name ds version seq
        (sym (ap (λ b. if b then ok (v, q) else definition_in name ds) other) ∙ e))
]

pub query-Answers :
    (name : Bytes) (r : Result Bytes (Bytes × ℤ)) (w : Ledger)
    → definition_in name w.definitions ≡ r
    → Seen (λ d w. In (name, d.0, d.1) w.definitions) (r, w)
query-Answers name (ok (version, seq)) w e = definition_in-In name w.definitions version seq e
query-Answers name (err e) w h = tt

pub not_found :
    {body : Result Bytes Bytes} → Path (ℤ × Result Bytes Bytes) (pos 404, ok []) (pos 200, body) → ⊥
not_found e = pos-ne (ap (λ r. r.0) e)
  where
    pos-ne : pos 404 ≢ pos 200
    pos-ne e = ground arith

pub delivered-Delivers :
    (channel : Bytes) (es : List Bytes) → Delivers (λ b. b ≡ channel) (delivered channel es)
delivered-Delivers channel [] = tt
delivered-Delivers channel (e ∷ es) = (refl, tt)

abbrev pub laws : Laws service
laws = record {
  progress = grows;
  HasPackage = λ p id w. In id w.packages;
  IsDefined = λ p channel name version seq w. In (name, version, seq) w.definitions;
  IsPeerOf = λ p channel w. In channel w.channels;
  IsOrdererOf = λ host channel w. In channel w.orderer_channels;
  package_stable = λ p id v w l. l.0 id;
  defined_stable = λ p channel name version seq v w l. l.1 (name, version, seq);
  peer_stable = λ p channel v w l. l.2 channel;
  orderer_stable = λ host channel v w l. l.3 channel;
  id_of = λ pkg. the_id;
  channel_of = λ block. block;
  channel_in = λ block. codes "c";
  wait = asked tt;
  read_file = λ path. asked path;
  new_peer_conn = λ i j. asked tt;
  query_installed = λ p. record { at = λ w. (same, All-In w.packages) };
  install = λ p pkg. record {
    at = λ w. ((λ x i. there i, λ x i. i, λ x i. i, λ x i. i, λ x i. i, λ x i. i, λ x i. i), here);
  };
  query_committed = λ p channel name. record { at = λ w. (same, query-Answers name _ w refl) };
  check_commit_readiness = λ p def. asked _;
  approve = λ p def. asked tt;
  commit = λ p def. record {
    at = λ w. ((λ x i. i, λ x i. there i, λ x i. i, λ x i. i, λ x i. i, λ x i. i, λ x i. i), tt);
  };
  list_channels = λ p. record { at = λ w. (same, All-In w.channels) };
  join_channel = λ p block. record {
    at = λ w. ((λ x i. i, λ x i. i, λ x i. there i, λ x i. i, λ x i. i, λ x i. i, λ x i. i), here);
  };
  osn_client = λ host. asked tt;
  osn_list = λ c host channel. record { at = λ w. (same, λ e. absurd (not_found e)) };
  osn_join = λ c host block. record {
    at = λ w.
        ((λ x i. i, λ x i. i, λ x i. i, λ x i. there i, λ x i. i, λ x i. i, λ x i. i), λ e. here);
  };
  IsOrdered = λ env w. In env w.ordered;
  HasEndorsed = λ p tx w. In tx w.endorsed;
  HasCommitted = λ p channel tx w. In tx w.committed;
  ordered_stable = λ env v w l. l.4 env;
  endorsed_stable = λ p tx v w l. l.5 tx;
  committed_stable = λ p channel tx v w l. l.6 tx;
  dial_orderer = λ i. asked tt;
  close_orderer = λ o w. same;
  broadcast = λ o env. record {
    at = λ w.
        ((λ x i. i, λ x i. i, λ x i. i, λ x i. i, λ x i. there i, λ x i. i, λ x i. i), λ e. here);
  };
  deliver = λ o channel wait. record { at = λ w. (same, delivered-Delivers channel w.ordered) };
  new_signature = λ o update. asked update;
  signed_envelope = λ o channel update. asked update.config_update;
  signed_proposal = λ p proposal. asked proposal.chaincode;
  process_proposal = λ p tx. record {
    at = λ w.
        ((λ x i. i, λ x i. i, λ x i. i, λ x i. i, λ x i. i, λ x i. there i, λ x i. i), λ e. here);
  };
  signed_tx = λ p tx rs. asked tx;
  sign_request = λ p channel tx. asked tx;
  commit_status = λ p channel tx sig. record {
    at = λ w.
        ((λ x i. i, λ x i. i, λ x i. i, λ x i. i, λ x i. i, λ x i. i, λ x i. there i), λ e. here);
  };
}
