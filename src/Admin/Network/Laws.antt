-- ===== src/Admin/Network/Laws.antt =====
-- What dialing, retrying and the loops over the peers guarantee.
use fabric_network_builder.Prelude.{
  List, ◌∷◌, true, Option, none, some, ◌≡◌, ◌≢◌, ap, eqb_ℤ, pos, negsuc, refl, ◌∙◌, sym, Bytes, ℤ,
  Result, ok, err, All, arith, inl, inr, Bool-cases,
}
use fabric_network_builder.Admin.Service.{Service}
use fabric_network_builder.Admin.Service.Laws.{Laws, Answers, Seen, Nothing}
use fabric_network_builder.Exec.{pure, raise, handle, ◌>>=◌}
use fabric_network_builder.Admin.Exec.{AdminError, failed}
use fabric_network_builder.Exec.Laws.{
  Progress, Any, IsStable, Outcome, Valid, both, >>=-Valid, pure-Valid, raise-Valid, for_each-Valid,
  All-stable,
}
use fabric_network_builder.Admin.Exec.Laws.{attempts-Valid}
use fabric_network_builder.Admin.Network.{
  Network, State, Admin, call, lift, printf, Line, PeerKey, peer_key, eqb_key, find_conn, returned,
  wait_delay, waited, pause, retry, keep_conn, dial_peer, for_each_peer, for_each_org, first_index,
}

pub eqb_ℤ-eq : (a b : ℤ) → eqb_ℤ a b ≡ true → a ≡ b
eqb_ℤ-eq (pos a) (pos b) e = ground arith
eqb_ℤ-eq (pos a) (negsuc b) e = ground arith
eqb_ℤ-eq (negsuc a) (pos b) e = ground arith
eqb_ℤ-eq (negsuc a) (negsuc b) e = ground arith

eqb_key-eq : (k l : PeerKey) → eqb_key k l ≡ true → k ≡ l
eqb_key-eq (peer_key i j) (peer_key i' j') e =
    let same_org : eqb_ℤ i i' ≡ true = ground arith in
    let same_peer : eqb_ℤ j j' ≡ true = ground arith in
    cc (eqb_ℤ-eq i i' same_org, eqb_ℤ-eq j j' same_peer)

module _ {F : Service} (W : Laws F) where
  -- The world moves on, and a connection that is kept stays.
  abbrev pub progress : Progress (State F)
  progress = record {
    Later = λ s t.
        W.progress.Later s.world t.world
        × ((k : PeerKey) (c : F.Conn)
            → find_conn k s.conns ≡ some c
            → find_conn k t.conns ≡ some c);
    here = (W.progress.here, λ k c e. e);
    via = λ st tu. (W.progress.via st.0 tu.0, λ k c e. tu.1 k c (st.1 k c e));
  }

  -- A fact about the world, and one about the connection kept for a peer.
  abbrev pub World : (F.World → Type 0) → State F → Type 0
  World P s = P s.world

  pub World-stable : (P : F.World → Type 0) → IsStable W.progress P → IsStable progress (World P)
  World-stable P h s t l p = h s.world t.world l.0 p

  -- The peer has a connection, of which a fact holds.
  abbrev pub Peer : (F.Conn → F.World → Type 0) → ℤ → ℤ → State F → Type 0
  Peer P i j s = record {
    0 : F.Conn;
    1 : find_conn (peer_key i j) s.conns ≡ some «0»;
    2 : P «0» s.world;
  }

  pub Peer-stable :
      (P : F.Conn → F.World → Type 0)
      → ((c : F.Conn) → IsStable W.progress (P c))
      → (i j : ℤ) → IsStable progress (Peer P i j)
  Peer-stable P h i j s t l (c, e, p) = (c, l.1 _ c e, h c s.world t.world l.0 p)

  lift-Outcome :
      {A : Type 0} (Q : A → F.World → Type 0) (s : State F) (r : Result Bytes A × F.World)
      → W.progress.Later s.world r.1 × Seen Q r
      → Outcome progress (λ a. World (Q a)) s (lift r s)
  lift-Outcome Q s (ok a, w) (l, q) = ((l, λ k c e. e), q)
  lift-Outcome Q s (err e, w) (l, q) = ((l, λ k c e. e), tt)

  pub call-Valid :
      {A : Type 0} {Q : A → F.World → Type 0} {f : F.World → Result Bytes A × F.World}
      → Answers W.progress f Q
      → Valid progress Any (call f) (λ a. World (Q a))
  call-Valid {Q = Q} {f = f} h = record { run = λ s p. lift-Outcome Q s (f s.world) (h.at s.world) }

  pub returned-Valid :
      {A : Type 0} (r : Result Bytes A) → Valid progress Any (returned r) (λ a s. r ≡ ok a)
  returned-Valid (ok a) = pure-Valid a (λ s p. refl)
  returned-Valid (err e) = raise-Valid (failed e)

  pub printf-Valid :
      {P : State F → Type 0} (Q : F.World → Type 0) (l : Line)
      → ((s : State F) → P s → Q s.world)
      → Valid progress P (printf l) (λ u. World Q)
  unfolding printf
  printf-Valid Q l h = record { run = λ s p. ((W.progress.here, λ k c e. e), h s p) }

  wait_delay-Valid : Valid progress Any wait_delay (λ u. Any)
  unfolding wait_delay
  wait_delay-Valid = record { run = λ s p. waited-Outcome s (F.wait s.world) (W.wait.at s.world) }
    where
      waited-Outcome :
          (s : State F) (r : Result Bytes (Unit {0}) × F.World)
          → W.progress.Later s.world r.1 × Seen Nothing r
          → Outcome progress (λ u. Any) s (waited r s)
      waited-Outcome s (ok u, w) l = ((l.0, λ k c e. e), tt)
      waited-Outcome s (err e, w) l = ((l.0, λ k c e. e), tt)

  pub retry-Valid :
      {A : Type 0} {Q : A → State F → Type 0} {f : Admin F A} (n : Network) (what : Bytes)
      → Valid progress Any f Q
      → Valid progress Any (retry n what f) Q
  unfolding retry pause
  retry-Valid n what hf =
      attempts-Valid what n.retries _ n.retries
        (λ l e. >>=-Valid (printf-Valid (λ w. Unit {0}) _ (λ s p. tt)) (λ u. wait_delay-Valid)) hf

  find_conn-new :
      (i j : ℤ) (c : F.Conn) (conns : List (PeerKey × F.Conn))
      → find_conn (peer_key i j) ((peer_key i j, c) ∷ conns) ≡ some c
  unfolding find_conn
  find_conn-new i j c conns = ground arith

  some-ne-none : {c : F.Conn} → some c ≢ none
  some-ne-none e = cc

  find_conn-kept :
      (k l : PeerKey) (c d : F.Conn) (conns : List (PeerKey × F.Conn))
      → find_conn k conns ≡ none
      → find_conn l conns ≡ some d
      → find_conn l ((k, c) ∷ conns) ≡ some d
  unfolding find_conn
  find_conn-kept k l c d conns absent present = elim (Bool-cases (eqb_key l k)) [
    | inl same ↦
        absurd
          (some-ne-none (sym present ∙ ap (λ m. find_conn m conns) (eqb_key-eq l k same) ∙ absent))
    | inr differ ↦ simp (differ, present)
  ]

  -- A connection that was kept, or is kept now.
  pub dial_peer-Valid :
      (i j : ℤ)
      → Valid progress Any (dial_peer i j) (λ c s. find_conn (peer_key i j) s.conns ≡ some c)
  unfolding dial_peer keep_conn
  dial_peer-Valid i j = record { run = λ s p. dialed s (find_conn (peer_key i j) s.conns) refl }
    where
      opened :
          (s : State F)
          → find_conn (peer_key i j) s.conns ≡ none
          → (r : Result Bytes F.Conn × F.World) → W.progress.Later s.world r.1
          → Outcome progress
              (λ c t. find_conn (peer_key i j) t.conns ≡ some c)
              s
              (handle (lift r s) (keep_conn (peer_key i j)) raise)
      opened s absent (ok c, w) l = (
        (l, λ k d e. find_conn-kept (peer_key i j) k c d s.conns absent e),
        find_conn-new i j c s.conns,
      )
      opened s absent (err e, w) l = ((l, λ k d e. e), tt)

      dialed :
          (s : State F) (o : Option F.Conn)
          → find_conn (peer_key i j) s.conns ≡ o
          → Outcome progress {E = AdminError}
              (λ c t. find_conn (peer_key i j) t.conns ≡ some c)
              s
              (elim o [
                | some c ↦ pure c s
                | none ↦ (call (F.new_peer_conn i j) >>= keep_conn (peer_key i j)) s
              ])
      dialed s (some c) e = ((W.progress.here, λ k d h. h), e)
      dialed s none e =
          opened s e (F.new_peer_conn i j s.world) ((W.new_peer_conn i j).at s.world).0

  -- A step on one peer: it is dialed, and attempts are made on its connection.
  pub dialed-Valid :
      (P : F.Conn → F.World → Type 0) {once : F.Conn → Admin F (Unit {0})} (n : Network)
      (what : F.Conn → Bytes) (i j : ℤ)
      → ((c : F.Conn) → Valid progress Any (once c) (λ u. World (P c)))
      → Valid progress Any (dial_peer i j >>= λ c. retry n (what c) (once c)) (λ u. Peer P i j)
  dialed-Valid P n what i j h =
      both (λ c s t l e. l.1 _ c e) (dial_peer-Valid i j) (λ c. retry-Valid n (what c) (h c))
        (λ c u s p e. (c, e, p))

  module _ {Q : ℤ → ℤ → State F → Type 0} {f : ℤ → ℤ → Admin F (Unit {0})}
      (stable : (i j : ℤ) → IsStable progress (Q i j))
      (h : (i j : ℤ) → Valid progress Any (f i j) (λ u. Q i j)) where
    pub for_each_peer-Valid :
        (n : Network)
        → Valid progress Any
            (for_each_peer n f)
            (λ u s. All (λ i. All (λ j. Q i j s) n.vars.peer_indices) n.vars.org_indices)
    unfolding for_each_peer
    for_each_peer-Valid n =
        for_each-Valid n.vars.org_indices (λ i. All-stable progress n.vars.peer_indices (stable i))
          (λ i. for_each-Valid n.vars.peer_indices (stable i) (h i))

    pub for_each_org-Valid :
        (n : Network)
        → Valid progress Any
            (for_each_org n f)
            (λ u s. All (λ i. Q i (first_index n.vars.peer_indices) s) n.vars.org_indices)
    unfolding for_each_org
    for_each_org-Valid n =
        for_each-Valid n.vars.org_indices (λ i. stable i (first_index n.vars.peer_indices))
          (λ i. h i (first_index n.vars.peer_indices))
