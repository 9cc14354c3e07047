-- ===== src/Admin/Exec/Laws.antt =====
-- What the attempts of `retry` guarantee.
use fabric_network_builder.Prelude.{ℕ, zero, suc, Bytes}
use fabric_network_builder.Exec.{Exec, pure}
use fabric_network_builder.Exec.Laws.{
  Progress, Any, Valid, handle-Outcome, pure-Valid, raise-Valid, weaken, >>=-Valid,
}
use fabric_network_builder.Admin.Exec.{
  AdminError, attempts, after_failure, no_attempts, after_attempts,
}

module _ {ℓ κ} {S : Type ℓ} {L : Progress S} {A : Type κ} {Q : A → S → Type 0}
    {f : Exec AdminError S A} where
  -- What one attempt guarantees, the attempts guarantee.
  pub attempts-Valid :
      (what : Bytes) (retries : ℕ) (pause : ℕ → AdminError → Exec AdminError S (Unit {0})) (n : ℕ)
      → ((l : ℕ) (e : AdminError) → Valid L Any (pause l e) (λ u. Any))
      → Valid L Any f Q
      → Valid L Any (attempts what retries pause f n) Q
  unfolding attempts after_failure
  attempts-Valid what retries pause zero hp hf = raise-Valid (no_attempts what)
  attempts-Valid what retries pause (suc zero) hp hf = record {
    run = λ s p.
        handle-Outcome {L = L} Q Q pure _ s (f s) (hf.run s tt) (λ a. pure-Valid a (λ t q. q))
          (λ e. raise-Valid (after_attempts what retries e));
  }
  attempts-Valid what retries pause (suc (suc left)) hp hf = record {
    run = λ s p.
        handle-Outcome {L = L} Q Q pure _ s (f s) (hf.run s tt) (λ a. pure-Valid a (λ t q. q))
          (λ e.
            >>=-Valid (weaken (λ t l. tt) (λ u t q. q) (hp (suc left) e))
              (λ u. attempts-Valid what retries pause (suc left) hp hf));
  }
