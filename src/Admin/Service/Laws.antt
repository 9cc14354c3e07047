-- ===== src/Admin/Service/Laws.antt =====
-- What the theorems rely on about the nodes: what a peer or an orderer holds stays there, and a call
-- that succeeds did, or saw, what its name says.
use fabric_network_builder.Prelude.{
  [], ◌∷◌, Bool, true, List, ◌≡◌, refl, Bytes, codes, ℤ, pos, Result, ok, err, All,
}
use fabric_network_builder.Exec.Laws.{Progress, IsStable}
use fabric_network_builder.Admin.Service.{
  Service, Definition, ConfigUpdate, Delivered, a_block, a_status, another, Proposal, Endorsement,
}

-- A fact about the value of a successful call, in the world behind it.
abbrev pub Seen : {W A : Type 0} → (A → W → Type 0) → Result Bytes A × W → Type 0
Seen Q (ok a, w) = Q a w
Seen Q (err e, w) = Unit

-- A call moves on, and what it answers holds.
pub record Answers {W A : Type 0} (L : Progress W) (f : W → Result Bytes A × W) (Q : A → W → Type 0)
    : Type 0 where
  pub at : (w : W) → L.Later w (f w).1 × Seen Q (f w)

abbrev pub Nothing : {W A : Type 0} → A → W → Type 0
Nothing a w = Unit {0}

-- Each block of the replies has a property.
abbrev pub Delivers : {Block : Type 0} → (Block → Type 0) → List (Delivered Block) → Type 0
Delivers P [] = Unit
Delivers P (a_block b ∷ replies) = P b × Delivers P replies
Delivers P (a_status status ∷ replies) = Delivers P replies
Delivers P (another ∷ replies) = Delivers P replies

pub record Laws (F : Service) : Type 1 where
  pub progress : Progress F.World
  -- A peer holds the package with an ID, its ledger holds a definition with a version and a
  -- sequence number, and it is a member of a channel; an orderer is a member of a channel.
  pub HasPackage : F.Conn → Bytes → F.World → Type 0
  pub IsDefined : F.Conn → Bytes → Bytes → Bytes → ℤ → F.World → Type 0
  pub IsPeerOf : F.Conn → Bytes → F.World → Type 0
  pub IsOrdererOf : Bytes → Bytes → F.World → Type 0
  pub package_stable : (p : F.Conn) (id : Bytes) → IsStable progress (HasPackage p id)
  pub defined_stable :
      (p : F.Conn) (channel name version : Bytes) (seq : ℤ)
      → IsStable progress (IsDefined p channel name version seq)
  pub peer_stable : (p : F.Conn) (channel : Bytes) → IsStable progress (IsPeerOf p channel)
  pub orderer_stable : (host channel : Bytes) → IsStable progress (IsOrdererOf host channel)
  -- The ID that a peer gives a package, from the label inside it, and the channel that a genesis
  -- block names.
  pub id_of : Bytes → Bytes
  pub channel_of : F.Block → Bytes
  pub channel_in : Bytes → Bytes
  pub wait : Answers progress F.wait Nothing
  pub read_file : (path : Bytes) → Answers progress (F.read_file path) Nothing
  pub new_peer_conn : (i j : ℤ) → Answers progress (F.new_peer_conn i j) Nothing
  pub query_installed :
      (p : F.Conn)
      → Answers progress (F.query_installed p) (λ ids w. All (λ id. HasPackage p id w) ids)
  pub install :
      (p : F.Conn) (pkg : Bytes)
      → Answers progress (F.install p pkg) (λ id w. HasPackage p (id_of pkg) w)
  pub query_committed :
      (p : F.Conn) (channel name : Bytes)
      → Answers progress
          (F.query_committed p channel name)
          (λ r w. IsDefined p channel name r.0 r.1 w)
  pub check_commit_readiness :
      (p : F.Conn)
      → (def : Definition F.Policy) → Answers progress (F.check_commit_readiness p def) Nothing
  pub approve :
      (p : F.Conn) → (def : Definition F.Policy) → Answers progress (F.approve p def) Nothing
  pub commit :
      (p : F.Conn) → (def : Definition F.Policy) → Answers progress (F.commit p def) Nothing
  pub list_channels :
      (p : F.Conn) → Answers progress (F.list_channels p) (λ cs w. All (λ c. IsPeerOf p c w) cs)
  pub join_channel :
      (p : F.Conn) (block : F.Block)
      → Answers progress (F.join_channel p block) (λ u w. IsPeerOf p (channel_of block) w)
  pub osn_client : (host : Bytes) → Answers progress (F.osn_client host) Nothing
  -- 200 with the status "active" is a member's reply, and 201 the reply to a join.
  pub osn_list :
      (c : F.Client) (host channel : Bytes)
      → Answers progress
          (F.osn_list c host channel)
          (λ r w. r ≡ (pos 200, ok (codes "active")) → IsOrdererOf host channel w)
  pub osn_join :
      (c : F.Client) (host block : Bytes)
      → Answers progress
          (F.osn_join c host block)
          (λ r w. r.0 ≡ pos 201 → IsOrdererOf host (channel_in block) w)
  -- An envelope was ordered; a peer endorsed a proposal, and committed a transaction of a channel.
  pub IsOrdered : F.Envelope → F.World → Type 0
  pub HasEndorsed : F.Conn → F.Signed → F.World → Type 0
  pub HasCommitted : F.Conn → Bytes → Bytes → F.World → Type 0
  pub ordered_stable : (env : F.Envelope) → IsStable progress (IsOrdered env)
  pub endorsed_stable : (p : F.Conn) (signed : F.Signed) → IsStable progress (HasEndorsed p signed)
  pub committed_stable :
      (p : F.Conn) (channel tx : Bytes) → IsStable progress (HasCommitted p channel tx)
  pub dial_orderer : (i : ℤ) → Answers progress (F.dial_orderer i) Nothing
  pub close_orderer : (o : F.Orderer) (w : F.World) → progress.Later w (F.close_orderer o w)
  -- 200 is SUCCESS.
  pub broadcast :
      (o : F.Orderer) (env : F.Envelope)
      → Answers progress (F.broadcast o env) (λ r w. r.0 ≡ pos 200 → IsOrdered env w)
  -- The blocks that the orderer delivers are the genesis block of the channel.
  pub deliver :
      (o : F.Orderer) (channel : Bytes) (wait : Bool)
      → Answers progress
          (F.deliver o channel wait)
          (λ r w. Delivers (λ b. channel_of b ≡ channel) r.0)
  pub new_signature :
      (o : F.Orderer) (update : Bytes) → Answers progress (F.new_signature o update) Nothing
  pub signed_envelope :
      (o : F.Orderer) (channel : Bytes) (update : ConfigUpdate F.Signature)
      → Answers progress (F.signed_envelope o channel update) Nothing
  pub signed_proposal :
      (p : F.Conn) (proposal : Proposal) → Answers progress (F.signed_proposal p proposal) Nothing
  pub process_proposal :
      (p : F.Conn) (signed : F.Signed)
      → Answers progress
          (F.process_proposal p signed)
          (λ r w. r.is_endorsed ≡ true → HasEndorsed p signed w)
  pub signed_tx :
      (p : F.Conn) (signed : F.Signed) (rs : List Endorsement)
      → Answers progress (F.signed_tx p signed rs) Nothing
  pub sign_request :
      (p : F.Conn) (channel tx : Bytes) → Answers progress (F.sign_request p channel tx) Nothing
  -- 0 is VALID.
  pub commit_status :
      (p : F.Conn) (channel tx sig : Bytes)
      → Answers progress
          (F.commit_status p channel tx sig)
          (λ r w. r.0 ≡ pos 0 → HasCommitted p channel tx w)

-- What a call answers with, when more is known of its value.
pub Answers-sharper :
    {W A : Type 0} {L : Progress W} {f : W → Result Bytes A × W} {Q : A → W → Type 0}
    (R : A → Type 0)
    → ((w : W) (a : A) → (f w).0 ≡ ok a → R a)
    → Answers L f Q
    → Answers L f (λ a w. R a)
Answers-sharper {f = f} R h answers = record { at = λ w. ((answers.at w).0, seen R (f w) (h w)) }
  where
    seen :
        {W A : Type 0} (R : A → Type 0) (r : Result Bytes A × W)
        → ((a : A) → r.0 ≡ ok a → R a)
        → Seen (λ a w. R a) r
    seen R (ok a, w) h = h a refl
    seen R (err e, w) h = tt
