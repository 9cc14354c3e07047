-- ===== src/Admin/Network.antt =====
-- internal/admin/admin.go: the network, its cache of connections, `retry` and the loops over peers
-- and orgs.
pub mod Laws
pub mod Retry
use fabric_network_builder.Prelude.{
  ℕ, zero, suc, ◌-◌, List, [], ◌∷◌, ◌++◌, Bool, true, false, ◌&&◌, Option, none, some,
  if◌then◌else◌, Bytes, codes, ℤ, pos, eqb_ℤ, Result, ok, err,
}
use fabric_network_builder.Prelude.Decimal.{itoa}
use fabric_network_builder.Vars.{Vars}
use fabric_network_builder.Admin.Service.{Service}
use fabric_network_builder.Exec.{Exec, pure, raise, handle, ◌>>=◌, ◌>>◌, for_each}
use fabric_network_builder.Admin.Exec.{AdminError, failed, context_done, attempts}

pub record Network : Type 0 where
  pub dir : Bytes
  pub vars : Vars
  pub retries : ℕ

-- The messages of `printf`, with their arguments.
pub data Line : Type 0 where
  retrying : Bytes → ℕ → ℕ → AdminError → Line
  already_installed : Bytes → Bytes → Line
  installing : Bytes → Bytes → Line
  is_installed : Bytes → Bytes → Line
  next_sequence_number : ℤ → Line
  already_approved : Bytes → Line
  approving : Bytes → Bytes → Bytes → Line
  approved : Bytes → Line
  readiness_confirmed : Bytes → Line
  already_committed : Line
  committing : Bytes → Bytes → ℤ → Line
  definition_committed : Line
  query_successful : Bytes → Line
  all_good : Line
  already_member : Bytes → Bytes → Line
  joined : Bytes → Bytes → Line
  channel_created : Bytes → Line
  already_has : Bytes → Bytes → Line
  anchors_updated : Bytes → Line
  transaction_committed : Bytes → ℤ → Line
  using_system_channel : Bytes → Line
  ready_for_install : Bytes → Line

pub data PeerKey : Type 0 where
  peer_key : ℤ → ℤ → PeerKey

abbrev pub eqb_key : PeerKey → PeerKey → Bool
eqb_key (peer_key i j) (peer_key k l) = eqb_ℤ i k && eqb_ℤ j l

module _ {ℓ} {C : Type ℓ} where
  -- `n.conns[key]`
  unfoldable pub find_conn : PeerKey → List (PeerKey × C) → Option C
  find_conn k [] = none
  find_conn k ((j, c) ∷ conns) = if eqb_key k j then some c else find_conn k conns

module _ (F : Service) where
  -- The connections, the lines printed, the last one first, and the world outside.
  pub record State : Type 0 where
    pub conns : List (PeerKey × F.Conn)
    pub out : List Line
    pub world : F.World

  abbrev pub Admin : Type 0 → Type 0
  Admin A = Exec AdminError State A

-- The file of the project with these path elements below its directory.
abbrev pub path : Service → Network → List Bytes → Bytes
path F n names = F.join_path (n.dir ∷ F.join_path names ∷ [])

-- `PeerIndices[0]`, which `ReadVars` makes sure of.
abbrev pub first_index : List ℤ → ℤ
first_index [] = pos 0
first_index (j ∷ js) = j

module _ {F : Service} where
  -- A call whose error is returned as it is.
  abbrev pub lift :
      {A : Type 0} → Result Bytes A × F.World → State F → Result AdminError A × State F
  lift (ok a, w) s = (ok a, record s { world = w })
  lift (err e, w) s = (err (failed e), record s { world = w })

  abbrev pub call : {A : Type 0} → (F.World → Result Bytes A × F.World) → Admin F A
  call f s = lift (f s.world) s

  -- The result of a library function that calls nothing.
  abbrev pub returned : {A : Type 0} → Result Bytes A → Admin F A
  returned (ok a) = pure a
  returned (err e) = raise (failed e)

  unfoldable pub printf : Line → Admin F (Unit {0})
  printf l s = (ok tt, record s { out = l ∷ s.out })

  -- `select` on the context and the timer.
  abbrev pub waited :
      Result Bytes (Unit {0}) × F.World → State F → Result AdminError (Unit {0}) × State F
  waited (ok u, w) s = (ok tt, record s { world = w })
  waited (err e, w) s = (err (context_done e), record s { world = w })

  unfoldable pub wait_delay : Admin F (Unit {0})
  wait_delay s = waited (F.wait s.world) s

  unfoldable pub pause : Bytes → ℕ → ℕ → AdminError → Admin F (Unit {0})
  pause what retries left e = do printf (retrying what (retries - left) retries e); wait_delay

  unfoldable pub retry : {A : Type 0} → Network → Bytes → Admin F A → Admin F A
  retry n what f = attempts what n.retries (pause what n.retries) f n.retries

  -- `n.conns[key] = p`, for a key that is not in the map.
  unfoldable pub keep_conn : PeerKey → F.Conn → Admin F F.Conn
  keep_conn k c s = (ok c, record s { conns = (k, c) ∷ s.conns })

  unfoldable pub dial_peer : ℤ → ℤ → Admin F F.Conn
  dial_peer i j s = elim (find_conn (peer_key i j) s.conns) [
    | some c ↦ (ok c, s)
    | none ↦ (call (F.new_peer_conn i j) >>= keep_conn (peer_key i j)) s
  ]

  unfoldable pub for_each_peer : Network → (ℤ → ℤ → Admin F (Unit {0})) → Admin F (Unit {0})
  for_each_peer n f = for_each (λ i. for_each (f i) n.vars.peer_indices) n.vars.org_indices

  unfoldable pub for_each_org : Network → (ℤ → ℤ → Admin F (Unit {0})) → Admin F (Unit {0})
  for_each_org n f = for_each (λ i. f i (first_index n.vars.peer_indices)) n.vars.org_indices
