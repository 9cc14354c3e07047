-- ===== src/Admin/Commit/Moves.antt =====
-- The steps of `Install` of which the theorems only need that they move the state on.
use fabric_network_builder.Prelude.{
  List, [], ◌∷◌, Bool, true, false, not, if◌then◌else◌, Bytes, ℤ, Result, ok, err,
}
use fabric_network_builder.Admin.Service.{Service, Definition, CollectionEntry}
use fabric_network_builder.Admin.Service.Laws.{Laws, Answers}
use fabric_network_builder.Exec.{◌>>=◌, ◌>>◌}
use fabric_network_builder.Admin.Exec.{AdminError, bad_collections, bad_collection, bad_policy}
use fabric_network_builder.Exec.Laws.{
  Any, Valid, Outcome, weaken, >>=-Valid, pure-Valid, raise-Valid, if-Valid,
}
use fabric_network_builder.Admin.Network.{
  Network, State, Line, printf, call, retry, dial_peer, for_each_org, Admin,
}
use fabric_network_builder.Admin.Network.Laws.{
  progress, call-Valid, printf-Valid, retry-Valid, dial_peer-Valid, for_each_org-Valid,
}
use fabric_network_builder.Admin.Install.{
  in_context, configs, config_of, collections, application_policy, sequence_of, query_sequence,
  next_sequence, committed_not_defined,
}
use fabric_network_builder.Admin.Commit.{
  try_call, approved_by, approve_once, approve, all_approved, ready_once, wait_ready, committed_at,
  commit_once, commit,
}

module _ {F : Service} (W : Laws F) where
  -- Whatever it leaves, the action moves on.
  abbrev pub Moves : {A : Type 0} → Admin F A → Type 0
  Moves m = Valid (progress W) Any m (λ a. Any)

  pub moved :
      {A : Type 0} {Q : A → State F → Type 0} {m : Admin F A}
      → Valid (progress W) Any m Q
      → Valid (progress W) Any m (λ a. Any)
  moved = weaken (λ s h. tt) (λ a s q. tt)

  pub says : (l : Line) → Valid (progress W) Any (printf l) (λ u. Any)
  says l = printf-Valid W (λ w. Unit {0}) l (λ s h. tt)

  pub calls :
      {A : Type 0} {f : F.World → Result Bytes A × F.World} {Q : A → F.World → Type 0}
      → Answers W.progress f Q
      → Valid (progress W) Any (call f) (λ a. Any)
  calls h = moved (call-Valid W h)

  tries :
      {A : Type 0} {f : F.World → Result Bytes A × F.World} {Q : A → F.World → Type 0}
      → Answers W.progress f Q
      → Valid (progress W) Any (try_call f) (λ a. Any)
  unfolding try_call
  tries h = record { run = λ s p. (((h.at s.world).0, λ k c e. e), tt) }

  dialed-Moves :
      {A : Type 0} {once : F.Conn → Admin F A} (n : Network) (what : F.Conn → Bytes) (i j : ℤ)
      → ((c : F.Conn) → Valid (progress W) Any (once c) (λ a. Any))
      → Valid (progress W) Any (dial_peer i j >>= λ c. retry n (what c) (once c)) (λ a. Any)
  dialed-Moves n what i j h =
      >>=-Valid (moved (dial_peer-Valid W i j)) (λ c. retry-Valid W n (what c) (h c))

  for_each_org-Moves :
      {f : ℤ → ℤ → Admin F (Unit {0})} (n : Network)
      → ((i j : ℤ) → Valid (progress W) Any (f i j) (λ u. Any))
      → Valid (progress W) Any (for_each_org n f) (λ u. Any)
  for_each_org-Moves n h = moved (for_each_org-Valid W (λ i j s t l q. tt) h n)

  approve_once-Moves : (p : F.Conn) (def : Definition F.Policy) → Moves (approve_once p def)
  unfolding approve_once
  approve_once-Moves p def = >>=-Valid (tries (W.check_commit_readiness p def)) (λ r.
      if-Valid (approved_by (F.msp p) r) (λ yes?. says _)
        (λ no?. >>=-Valid (says _) (λ u. >>=-Valid (calls (W.approve p def)) (λ v. says _))))

  approve-Moves : (n : Network) (def : Definition F.Policy) (i j : ℤ) → Moves (approve n def i j)
  unfolding approve
  approve-Moves n def i j = dialed-Moves n _ i j (λ p. approve_once-Moves p def)

  all_approved-Moves : (approvals : List (Bytes × Bool)) → Moves (all_approved approvals)
  unfolding all_approved
  all_approved-Moves [] = pure-Valid tt (λ s h. tt)
  all_approved-Moves ((msp, yes?) ∷ approvals) =
      if-Valid (not yes?) (λ e. raise-Valid _) (λ e. all_approved-Moves approvals)

  ready_once-Moves : (p : F.Conn) (def : Definition F.Policy) → Moves (ready_once p def)
  unfolding ready_once
  ready_once-Moves p def =
      >>=-Valid (calls (W.check_commit_readiness p def))
        (λ r. >>=-Valid (all_approved-Moves r) (λ u. says _))

  wait_ready-Moves :
      (n : Network) (def : Definition F.Policy) (i j : ℤ) → Moves (wait_ready n def i j)
  unfolding wait_ready
  wait_ready-Moves n def i j = dialed-Moves n _ i j (λ p. ready_once-Moves p def)

  commit_once-Moves : (p : F.Conn) (def : Definition F.Policy) → Moves (commit_once p def)
  unfolding commit_once
  commit_once-Moves p def = >>=-Valid (tries (W.query_committed p def.channel_name def.name)) (λ r.
      if-Valid (committed_at def.sequence r) (λ yes?. says _)
        (λ no?. >>=-Valid (says _) (λ u. >>=-Valid (calls (W.commit p def)) (λ v. says _))))

  commit-Moves : (n : Network) (def : Definition F.Policy) → Moves (commit n def)
  unfolding commit
  commit-Moves n def = dialed-Moves n _ _ _ (λ p. commit_once-Moves p def)

  -- The steps before the last one of `define`.
  pub define-start :
      {k : Admin F (Unit {0})} {Q : Unit {0} → State F → Type 0} (n : Network)
      (def : Definition F.Policy)
      → Valid (progress W) Any k Q
      → Valid
          (progress W)
          Any
          (for_each_org n (approve n def)
            >> (for_each_org n (wait_ready n def) >> (commit n def >> k)))
          Q
  define-start n def h = >>=-Valid (for_each_org-Moves n (approve-Moves n def)) (λ u.
      >>=-Valid (for_each_org-Moves n (wait_ready-Moves n def))
        (λ v. >>=-Valid (commit-Moves n def) (λ w. h)))

  if-Later :
      {A : Type 0} (s : State F) (r r' : Result AdminError A × State F) (b : Bool)
      → (progress W).Later s r.1
      → (progress W).Later s r'.1
      → Outcome (progress W) (λ q. Any) s (if b then r else r')
  if-Later s (ok a, t) r' true h h' = (h, tt)
  if-Later s (err e, t) r' true h h' = (h, tt)
  if-Later s r (ok a, t) false h h' = (h', tt)
  if-Later s r (err e, t) false h h' = (h', tt)

  sequence_of-Outcome :
      (name : Bytes) (s : State F) (r : Result Bytes (Bytes × ℤ) × F.World)
      → W.progress.Later s.world r.1
      → Outcome (progress W) (λ q. Any) s (sequence_of name r s)
  unfolding sequence_of
  sequence_of-Outcome name s (ok (version, seq), w) l = ((l, λ k c e. e), tt)
  sequence_of-Outcome name s (err e, w) l =
      if-Later s _ _ (committed_not_defined e name) (l, λ k c e. e) (l, λ k c e. e)

  query_sequence-Moves : (p : F.Conn) (channel name : Bytes) → Moves (query_sequence p channel name)
  unfolding query_sequence
  query_sequence-Moves p channel name = record {
    run = λ s h.
        sequence_of-Outcome name s (F.query_committed p channel name s.world)
          ((W.query_committed p channel name).at s.world).0;
  }

  pub next_sequence-Moves :
      (n : Network) (channel name : Bytes) → Moves (next_sequence n channel name)
  unfolding next_sequence
  next_sequence-Moves n channel name =
      dialed-Moves n _ _ _ (λ p. query_sequence-Moves p channel name)

  pub in_context-Moves :
      {A : Type 0} (context : AdminError → AdminError) (r : Result Bytes A)
      → Valid (progress W) Any (in_context context r) (λ a. Any)
  in_context-Moves context (ok a) = pure-Valid a (λ s h. tt)
  in_context-Moves context (err e) = raise-Valid _

  configs-Moves : (cols : List CollectionEntry) → Moves (configs cols)
  unfolding configs
  configs-Moves [] = pure-Valid [] (λ s h. tt)
  configs-Moves (c ∷ cols) =
      >>=-Valid (in_context-Moves (bad_collection c.name) (F.policy_from_string c.policy))
        (λ policy.
          >>=-Valid (configs-Moves cols)
            (λ rest. pure-Valid (config_of c policy ∷ rest) (λ s h. tt)))

  pub collections-Moves : (n : Network) → Moves (collections n)
  unfolding collections
  collections-Moves n = >>=-Valid (calls (W.read_file _)) (λ b.
      >>=-Valid (in_context-Moves bad_collections (F.unmarshal_collections b))
        (λ cols. configs-Moves cols))

  pub application_policy-Moves : (n : Network) → Moves (application_policy n)
  unfolding application_policy
  application_policy-Moves n =
      in_context-Moves (bad_policy n.vars.endorsement_policy)
        (F.policy_from_string n.vars.endorsement_policy)
