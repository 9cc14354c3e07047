-- ===== src/Exec/Laws.antt =====
-- What an action guarantees, for actions that only move the state on: the rules for the pieces of a
-- program.
use mathlib.Core.Path.{subst}
use fabric_network_builder.Prelude.{
  Bool, true, false, if◌then◌else◌, ◌≡◌, refl, List, [], ◌∷◌, Result, ok, err, All,
}
use fabric_network_builder.Exec.{Exec, pure, raise, handle, either_way, ◌>>=◌, for_each, deferring}

-- An order on states in which the program moves.
pub record Progress {ℓ} (S : Type ℓ) : Type (ℓ ⊔ 1) where
  pub Later : S → S → Type 0
  pub here : {s : S} → Later s s
  pub via : {s t u : S} → Later s t → Later t u → Later s u

pub All-of {ℓ κ} : {X : Type ℓ} {P : X → Type κ} (xs : List X) → ((x : X) → P x) → All P xs
All-of [] h = tt
All-of (x ∷ xs) h = (h x, All-of xs h)

pub All-imp {ℓ κ ν} :
    {X : Type ℓ} {P : X → Type κ} {Q : X → Type ν} (xs : List X)
    → ((x : X) → P x → Q x)
    → All P xs
    → All Q xs
All-imp [] f h = tt
All-imp (x ∷ xs) f (p, h) = (f x p, All-imp xs f h)

module _ {ℓ} {S : Type ℓ} where
  abbrev pub Any : S → Type 0
  Any s = Unit {0}

  abbrev pub Post {κ} : {E : Type 0} {A : Type κ} → (A → S → Type 0) → Result E A × S → Type 0
  Post Q (ok a, s) = Q a s
  Post Q (err e, s) = Unit

  Post-map {κ} :
      {E : Type 0} {A : Type κ} (Q R : A → S → Type 0) (r : Result E A × S)
      → ((a : A) → Q a r.1 → R a r.1)
      → Post Q r
      → Post R r
  Post-map Q R (ok a, t) f q = f a q
  Post-map Q R (err e, t) f q = tt

module _ {ℓ} {S : Type ℓ} (L : Progress S) where
  abbrev pub IsStable : (S → Type 0) → Type ℓ
  IsStable P = (s t : S) → L.Later s t → P s → P t

  pub All-stable {κ} :
      {X : Type κ} {Q : X → S → Type 0} (xs : List X)
      → ((x : X) → IsStable (Q x))
      → IsStable (λ s. All (λ x. Q x s) xs)
  All-stable [] stable s t l q = tt
  All-stable (x ∷ xs) stable s t l (q, rest) = (stable x s t l q, All-stable xs stable s t l rest)

  abbrev pub Outcome {κ} :
      {E : Type 0} {A : Type κ} → (A → S → Type 0) → S → Result E A × S → Type 0
  Outcome Q s r = L.Later s r.1 × Post Q r

-- From a state with P the action moves on, and a success ends in a state with Q.
pub record Valid {ℓ κ} {E : Type 0} {S : Type ℓ} {A : Type κ} (L : Progress S) (P : S → Type 0)
    (m : Exec E S A) (Q : A → S → Type 0) : Type ℓ where
  pub run : (s : S) → P s → Outcome L Q s (m s)

module _ {ℓ} {E : Type 0} {S : Type ℓ} {L : Progress S} where
  module _ {κ} {A : Type κ} {P : S → Type 0} {Q : A → S → Type 0} where
    pub raise-Valid : (e : E) → Valid L P (raise e) Q
    raise-Valid e = record { run = λ s p. (L.here, tt) }

    pub pure-Valid : (a : A) → ((s : S) → P s → Q a s) → Valid {E = E} L P (pure a) Q
    pure-Valid a h = record { run = λ s p. (L.here, h s p) }

  pub handle-Outcome {κ ν} :
      {A : Type κ} {B : Type ν} (Q : A → S → Type 0) (R : B → S → Type 0) (k : A → Exec E S B)
      (g : E → Exec E S B) (s : S) (r : Result E A × S)
      → Outcome L Q s r
      → ((a : A) → Valid L (Q a) (k a) R)
      → ((e : E) → Valid L (L.Later s) (g e) R)
      → Outcome L R s (handle r k g)
  handle-Outcome Q R k g s (ok a, t) (l, q) hk hg =
      let rest = (hk a).run t q in (L.via l rest.0, rest.1)
  handle-Outcome Q R k g s (err e, t) (l, q) hk hg =
      let rest = (hg e).run t l in (L.via l rest.0, rest.1)

  pub >>=-Valid {κ ν} :
      {A : Type κ} {B : Type ν} {P : S → Type 0} {Q : A → S → Type 0} {R : B → S → Type 0}
      {m : Exec E S A} {k : A → Exec E S B}
      → Valid L P m Q
      → ((a : A) → Valid L (Q a) (k a) R)
      → Valid L P (m >>= k) R
  >>=-Valid {Q = Q} {R = R} {m = m} {k = k} hm hk = record {
    run = λ s p. handle-Outcome Q R k raise s (m s) (hm.run s p) hk (λ e. raise-Valid e);
  }

  -- Both ways out of an action, of which the second may rely on a fact that the action keeps.
  pub either_way-Valid {κ ν} :
      {A : Type κ} {B : Type ν} {P : S → Type 0} {Q : A → S → Type 0} {R : B → S → Type 0}
      {m : Exec E S A} {k : A → Exec E S B} {g : E → Exec E S B}
      → Valid L P m Q
      → ((a : A) → Valid L (Q a) (k a) R)
      → ((e : E) → Valid L Any (g e) R)
      → Valid L P (either_way m k g) R
  either_way-Valid {Q = Q} {R = R} {m = m} {k = k} {g = g} hm hk hg = record {
    run = λ s p.
        handle-Outcome Q R k g s (m s) (hm.run s p) hk
          (λ e. record { run = λ t l. (hg e).run t tt });
  }

  module _ {κ} {A : Type κ} where
    -- A stable fact survives an action.
    pub frame :
        {P : S → Type 0} {Q : A → S → Type 0} {m : Exec E S A} (I : S → Type 0)
        → IsStable L I
        → Valid L P m Q
        → Valid L (λ s. P s × I s) m (λ a s. Q a s × I s)
    frame {Q = Q} {m = m} I stable hm = record {
      run = λ s p. (
        (hm.run s p.0).0,
        Post-map Q (λ a t. Q a t × I t) (m s) (λ a q. (q, stable s _ (hm.run s p.0).0 p.1))
            (hm.run s p.0).1,
      );
    }

    pub weaken :
        {P P' : S → Type 0} {Q Q' : A → S → Type 0} {m : Exec E S A}
        → ((s : S) → P' s → P s)
        → ((a : A) (s : S) → Q a s → Q' a s)
        → Valid L P m Q
        → Valid L P' m Q'
    weaken {Q = Q} {Q' = Q'} {m = m} before after hm = record {
      run = λ s p. (
        (hm.run s (before s p)).0,
        Post-map Q Q' (m s) (λ a q. after a _ q) (hm.run s (before s p)).1,
      );
    }

  -- A conditional action, with what its test shows.
  pub if-Valid {κ} :
      {A : Type κ} {P : S → Type 0} {Q : A → S → Type 0} {m m' : Exec E S A} (b : Bool)
      → (b ≡ true → Valid L P m Q)
      → (b ≡ false → Valid L P m' Q)
      → Valid L P (if b then m else m') Q
  if-Valid true yes? no? = yes? refl
  if-Valid false yes? no? = no? refl

  -- A move of one kind is a move of another.
  pub along {κ} :
      {A : Type κ} {P : S → Type 0} {Q : A → S → Type 0} {m : Exec E S A} {L' : Progress S}
      → ((s t : S) → L.Later s t → L'.Later s t)
      → Valid L P m Q
      → Valid L' P m Q
  along h hm = record { run = λ s p. (h s _ (hm.run s p).0, (hm.run s p).1) }

  -- What a run that succeeds shows.
  pub run-Valid {κ} :
      {A : Type κ} {Q : A → S → Type 0} {m : Exec E S A} (s : S) {a : A} {t : S}
      → Valid L Any m Q
      → m s ≡ (ok a, t)
      → Q a t
  run-Valid {Q = Q} s hm e = subst (Post Q) e (hm.run s tt).1

  -- A deferred change that moves on.
  pub deferring-Valid {κ} :
      {A : Type κ} {P : S → Type 0} {Q : A → S → Type 0} {m : Exec E S A} (f : S → S)
      → ((s : S) → L.Later s (f s))
      → ((a : A) → IsStable L (Q a))
      → Valid L P m Q
      → Valid L P (deferring f m) Q
  deferring-Valid {A = A} {Q = Q} {m = m} f moves stable hm = record {
    run = λ s p. deferred s (m s) (hm.run s p);
  }
    where
      deferred : (s : S) (r : Result E A × S) → Outcome L Q s r → Outcome L Q s (r.0, f r.1)
      deferred s (ok a, t) (l, q) = (L.via l (moves t), stable a t (f t) (moves t) q)
      deferred s (err e, t) (l, q) = (L.via l (moves t), tt)

  -- A fact of no state is a hypothesis.
  pub given {κ} :
      {A : Type κ} {I : Type 0} {Q : A → S → Type 0} {m : Exec E S A}
      → (I → Valid L Any m Q)
      → Valid L (λ s. I) m Q
  given h = record { run = λ s i. (h i).run s tt }

  -- Two actions, of which the first leaves a stable fact.
  pub both {κ ν} :
      {A : Type κ} {B : Type ν} {P : S → Type 0} {Q : A → S → Type 0} {R : A → B → S → Type 0}
      {T : B → S → Type 0} {m : Exec E S A} {k : A → Exec E S B}
      → ((a : A) → IsStable L (Q a))
      → Valid L P m Q
      → ((a : A) → Valid L Any (k a) (R a))
      → ((a : A) (b : B) (s : S) → R a b s → Q a s → T b s)
      → Valid L P (m >>= k) T
  both {Q = Q} stable hm hk join = >>=-Valid hm (λ a.
      weaken (λ s q. (tt, q)) (λ b s rq. join a b s rq.0 rq.1) (frame (Q a) (stable a) (hk a)))

  -- A loop leaves, for each element, what its action leaves, when that is stable.
  pub for_each-All {κ} :
      {X : Type κ} {Q : X → S → Type 0} (f : X → Exec E S (Unit {0})) (xs : List X)
      → ((x : X) → IsStable L (Q x))
      → All (λ x. Valid L Any (f x) (λ u. Q x)) xs
      → Valid L Any (for_each f xs) (λ u s. All (λ x. Q x s) xs)
  unfolding for_each
  for_each-All f [] stable hf = pure-Valid tt (λ s p. tt)
  for_each-All f (x ∷ xs) stable (h, hf) =
      both (λ u. stable x) h (λ u. for_each-All f xs stable hf) (λ u u' s rest q. (q, rest))

  pub for_each-Valid {κ} :
      {X : Type κ} {f : X → Exec E S (Unit {0})} {Q : X → S → Type 0} (xs : List X)
      → ((x : X) → IsStable L (Q x))
      → ((x : X) → Valid L Any (f x) (λ u. Q x))
      → Valid L Any (for_each f xs) (λ u s. All (λ x. Q x s) xs)
  for_each-Valid {f = f} xs stable hf = for_each-All f xs stable (All-of xs hf)
