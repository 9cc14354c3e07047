-- ===== src/Admin/Network/Retry.antt =====
-- The runs of `retry`.
use fabric_network_builder.Prelude.{
  zero, Result, ◌+◌, ◌≤◌, arith, ℕ, suc, ◌≡◌, refl, ap, ◌∙◌, Bytes, ok, err,
}
use fabric_network_builder.Admin.Service.{Service}
use fabric_network_builder.Exec.{pure, raise, handle}
use fabric_network_builder.Admin.Exec.{AdminError, after_attempts, attempts, after_failure}
use fabric_network_builder.Admin.Network.{Network, State, Admin, pause, retry}

module _ {F : Service} {A : Type 0} (n : Network) (what : Bytes) (f : Admin F A) where
  -- Attempts that failed and after which the pause ended: the attempts left before and behind them,
  -- and the states.
  pub data Failed : ℕ → ℕ → State F → State F → Type 0 where
    no_more : {a : ℕ} {s : State F} → Failed a a s s
    again :
        {a b : ℕ} {s t u v : State F} {e : AdminError}
        → f s ≡ (err e, t)
        → pause what n.retries (suc a) e t ≡ (ok tt, u)
        → Failed (suc a) b u v
        → Failed (suc (suc a)) b s v

  attempts-again :
      (a : ℕ) (s t u : State F) (e : AdminError)
      → f s ≡ (err e, t)
      → pause what n.retries (suc a) e t ≡ (ok tt, u)
      → attempts what n.retries (pause what n.retries) f (suc (suc a)) s
        ≡ attempts what n.retries (pause what n.retries) f (suc a) u
  unfolding attempts after_failure
  attempts-again a s t u e failed paused =
      ap
        (λ r. handle r pure (
          after_failure what n.retries (pause what n.retries) f (suc a)
            (attempts what n.retries (pause what n.retries) f (suc a))))
        failed
      ∙ ap (λ r. handle r (λ x. attempts what n.retries (pause what n.retries) f (suc a)) raise)
          paused

  attempts-behind :
      (a b : ℕ) (s t : State F)
      → Failed a b s t
      → attempts what n.retries (pause what n.retries) f a s
        ≡ attempts what n.retries (pause what n.retries) f b t
  attempts-behind a b s t no_more = refl
  attempts-behind _ b s t (again {a = a} {t = u} {u = v} {e = e} failed paused rest) =
      attempts-again a s u v e failed paused ∙ attempts-behind (suc a) b v t rest

  -- Behind attempts that failed and pauses that ended, `retry` returns the value and the state of the
  -- first attempt that succeeds.
  pub retry-first_success :
      (left : ℕ) (s t u : State F) (a : A)
      → Failed n.retries (suc left) s t
      → f t ≡ (ok a, u)
      → retry n what f s ≡ (ok a, u)
  unfolding retry attempts
  retry-first_success left s t u a before success =
      attempts-behind n.retries (suc left) s t before
      ∙ ap
          (λ r. handle r pure (
            after_failure what n.retries (pause what n.retries) f left
              (attempts what n.retries (pause what n.retries) f left)))
          success

  -- When all attempts but the last failed and the pauses ended, and the last one fails too, `retry`
  -- returns its error with the number of attempts, in its state, without another pause.
  pub retry-exhausted :
      (s t u : State F) (e : AdminError)
      → Failed n.retries 1 s t
      → f t ≡ (err e, u)
      → retry n what f s ≡ (err (after_attempts what n.retries e), u)
  unfolding retry attempts after_failure
  retry-exhausted s t u e before failure =
      attempts-behind n.retries 1 s t before
      ∙ ap
          (λ r. handle r pure (
            after_failure what n.retries (pause what n.retries) f 0
              (attempts what n.retries (pause what n.retries) f 0)))
          failure

  module _ (count : State F → ℕ) (each : (s : State F) → count (f s).1 ≤ count s + 1)
      (pauses : (l : ℕ) (e : AdminError) (s : State F)
        → count (pause what n.retries l e s).1 ≤ count s) where
    -- The attempts behind are bounded.
    abbrev IsBounded : ℕ → Type 0
    IsBounded b =
        (v : State F) → count (attempts what n.retries (pause what n.retries) f b v).1 ≤ count v + b

    paused-bound :
        (b : ℕ) (t : State F) (r : Result AdminError (Unit {0}) × State F)
        → IsBounded b
        → count r.1 ≤ count t
        → count (handle r (λ u. attempts what n.retries (pause what n.retries) f b) raise).1
          ≤ count t + b
    paused-bound b t (ok u, v) behind h = omega (arith, behind v)
    paused-bound b t (err e, v) behind h = omega arith

    after_failure-bound :
        (b : ℕ) (e : AdminError) (t : State F)
        → IsBounded b
        → count
            (after_failure what n.retries
              (pause what n.retries)
              f
              b
              (attempts what n.retries (pause what n.retries) f b)
              e
              t).1
          ≤ count t + b
    unfolding after_failure
    after_failure-bound zero e t behind = omega arith
    after_failure-bound (suc b) e t behind =
        paused-bound (suc b) t (pause what n.retries (suc b) e t) behind (pauses (suc b) e t)

    attempt-bound :
        (a : ℕ) (s : State F) (r : Result AdminError A × State F)
        → IsBounded a
        → count r.1 ≤ count s + 1
        → count
            (handle r pure (
              after_failure what n.retries
                (pause what n.retries)
                f
                a
                (attempts what n.retries (pause what n.retries) f a))).1
          ≤ count s + suc a
    attempt-bound a s (ok x, t) behind h = omega arith
    attempt-bound a s (err e, t) behind h = omega (arith, after_failure-bound a e t behind)

    attempts-bound : (a : ℕ) → IsBounded a
    unfolding attempts
    attempts-bound zero s = omega arith
    attempts-bound (suc a) s = attempt-bound a s (f s) (attempts-bound a) (each s)

    -- `retry` makes at most Retries attempts: a count of the state that an attempt raises by at most
    -- one and a pause does not raise is raised by at most Retries.
    pub retry-bound : (s : State F) → count (retry n what f s).1 ≤ count s + n.retries
    unfolding retry
    retry-bound s = attempts-bound n.retries s
