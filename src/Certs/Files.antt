-- ===== src/Certs/Files.antt =====
-- What the theorems rely on about the environment of internal/certs, and what its calls guarantee:
-- which files stay as they are.
use mathlib.Core.Path.{subst}
use fabric_network_builder.Prelude.{
  List, [], ◌∷◌, ◌≡◌, ◌≢◌, refl, sym, ◌∙◌, Option, none, some, Bytes, Result, ok, err, ℕ,
}
use fabric_network_builder.Exec.{collect}
use fabric_network_builder.Exec.Laws.{
  Progress, Any, IsStable, Outcome, Valid, along, frame, weaken, >>=-Valid, pure-Valid, raise-Valid,
}
use fabric_network_builder.Certs.Environment.{Machine, Cert, Template, StatError, not_exist}
use fabric_network_builder.Certs.{State, Action, ask, call, returned, failed, printf, Line}

-- What the files hold, by their paths.
abbrev pub Contents : Type 0
Contents = Bytes → Option Bytes

-- A call that changes no file, and a fact about its answer and the files.
pub record Reads {W A : Type 0} (content : W → Contents) (f : W → A × W) (Q : A → Contents → Type 0)
    : Type 0 where
  pub at : (w : W) → (content (f w).1 ≡ content w) × Q (f w).0 (content w)

abbrev pub Nothing : {A : Type 0} → A → Contents → Type 0
Nothing a c = Unit {0}

abbrev pub NoFile : {A : Type 0} → Bytes → Result StatError A → Contents → Type 0
NoFile p r c = r ≡ err not_exist → c p ≡ none

abbrev pub FileRead : Bytes → Result Bytes Bytes → Contents → Type 0
FileRead p r c = (b : Bytes) → r ≡ ok b → c p ≡ some b

pub record Laws (F : Machine) : Type 0 where
  pub content : F.World → Contents
  pub stat : (p : Bytes) → Reads content (F.stat p) (NoFile p)
  pub glob : (pattern : Bytes) → Reads content (F.glob pattern) Nothing
  pub read_file : (p : Bytes) → Reads content (F.read_file p) (FileRead p)
  pub clock : Reads content F.clock Nothing
  pub rand_int : (n : ℕ) → Reads content (F.rand_int n) Nothing
  pub create_certificate :
      (t : Template F.Extension) (ca : Cert F.PublicKey F.Extension) (k : F.PublicKey)
      (key : F.Signer)
      → Reads content (F.create_certificate t ca k key) Nothing
  -- A write touches its own file only, and one that succeeds leaves the bytes in it.
  pub write_other :
      (q b : Bytes) (perm : ℕ) (w : F.World) (p : Bytes)
      → p ≢ q
      → content (F.write_file q b perm w).1 p ≡ content w p
  pub write_file :
      (q b : Bytes) (perm : ℕ) (w : F.World)
      → (F.write_file q b perm w).0 ≡ ok tt
      → content (F.write_file q b perm w).1 q ≡ some b

module _ {F : Machine} (W : Laws F) where
  abbrev pub On : (Contents → Type 0) → State F → Type 0
  On I s = I (W.content s.world)

  -- Where an answer came from.
  abbrev pub Came : {A : Type 0} → (F.World → A × F.World) → A → Type 0
  Came f r = record { 0 : F.World; 1 : r ≡ (f «0»).0 }

  -- No file changes.
  abbrev pub same : Progress (State F)
  same = record {
    Later = λ s t. W.content t.world ≡ W.content s.world;
    here = refl;
    via = λ st tu. tu ∙ st;
  }

  pub On-stable : (I : Contents → Type 0) → IsStable same (On I)
  On-stable I s t e = subst I (sym e)

  pub ask-Valid :
      {A : Type 0} {Q : A → Contents → Type 0} {f : F.World → A × F.World}
      → Reads W.content f Q
      → Valid same Any (ask f) (λ a. On (λ c. Q a c × Came f a))
  ask-Valid {Q = Q} {f = f} h = record {
    run = λ s _.
        let e : W.content (f s.world).1 ≡ W.content s.world = (h.at s.world).0 in
        (e, (subst (Q (f s.world).0) (sym e) (h.at s.world).1, (s.world, refl)));
  }

  pub returned-Valid :
      {A : Type 0} (P : Result Bytes A → Contents → Type 0) (r : Result Bytes A)
      → Valid same (On (P r)) (returned r) (λ a. On (P (ok a)))
  returned-Valid P (ok a) = pure-Valid a (λ s p. p)
  returned-Valid P (err e) = raise-Valid (failed e)

  pub call-Valid :
      {A : Type 0} {Q : Result Bytes A → Contents → Type 0} {f : F.World → Result Bytes A × F.World}
      → Reads W.content f Q
      → Valid same Any (call f) (λ a. On (λ c. Q (ok a) c × Came f (ok a)))
  call-Valid {Q = Q} {f = f} h =
      >>=-Valid (ask-Valid h) (λ r. returned-Valid (λ x c. Q x c × Came f x) r)

  -- A loop that appends what its rounds find.
  pub collect-Valid :
      {X A : Type 0} (f : X → Action F (List A)) (xs : List X)
      → ((x : X) → Valid same Any (f x) (λ a. Any))
      → Valid same Any (collect f xs) (λ a. Any)
  unfolding collect
  collect-Valid f [] hf = pure-Valid [] (λ s i. tt)
  collect-Valid f (x ∷ xs) hf =
      >>=-Valid (hf x)
        (λ found. >>=-Valid (collect-Valid f xs hf) (λ rest. pure-Valid _ (λ s i. tt)))

  module _ (Protected : Bytes → Type 0) where
    -- A protected file stays as it is.
    abbrev pub kept : Progress (State F)
    kept = record {
      Later = λ s t.
          (p b : Bytes) → Protected p → W.content s.world p ≡ some b → W.content t.world p ≡ some b;
      here = λ p b h e. e;
      via = λ st tu p b h e. tu p b h (st p b h e);
    }

    -- An action that changes no file, as a part of one that does.
    pub reading :
        {A : Type 0} (I : Contents → Type 0) (Q : A → Contents → Type 0) {m : Action F A}
        → Valid same Any m (λ a. On (Q a))
        → Valid kept (On I) m (λ a. On (λ c. Q a c × I c))
    reading I Q hm =
        along (λ s t e p b h held. subst (λ (c : Contents). c p ≡ some b) (sym e) held)
          (weaken (λ s i. (tt, i)) (λ a s q. q) (frame (On I) (On-stable I) hm))

    pub printf-Valid : (I : Contents → Type 0) (l : Line) → Valid kept (On I) (printf l) (λ u. On I)
    printf-Valid I l = record { run = λ s i. (λ p b h e. e, i) }

    -- A write, where it overwrites no protected file.
    module _ (P R : Contents → Type 0) (q b : Bytes) (perm : ℕ)
        (safe : (c : Contents) → P c → (p x : Bytes) → Protected p → c p ≡ some x → p ≢ q)
        (written : (c d : Contents)
          → P c
          → ((p : Bytes) → p ≢ q → d p ≡ c p)
          → d q ≡ some b
          → R d) where
      written-Outcome :
          (s : State F)
          → P (W.content s.world)
          → (r : Result Bytes (Unit {0})) → r ≡ (F.write_file q b perm s.world).0
          → Outcome kept
              (λ (u : Unit {0}). On R)
              s
              (returned r (record s { world = (F.write_file q b perm s.world).1 }))
      written-Outcome s i (ok u) e = (
        λ p x h held. W.write_other q b perm s.world p (safe _ i p x h held) ∙ held,
        written _ _ i (W.write_other q b perm s.world) (W.write_file q b perm s.world (sym e)),
      )
      written-Outcome s i (err m) e =
          (λ p x h held. W.write_other q b perm s.world p (safe _ i p x h held) ∙ held, tt)

      pub write-Valid : Valid kept (On P) (call (F.write_file q b perm)) (λ u. On R)
      write-Valid = record {
        run = λ s i. written-Outcome s i (F.write_file q b perm s.world).0 refl;
      }
