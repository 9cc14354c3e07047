-- ===== src/Cli/Commands/Exit.antt =====
-- When the exit code is zero.
use fabric_network_builder.Prelude.{
  [], Bytes, codes, Option, ◌≡◌, ◌↔◌, refl, Result, ok, err, arith,
}
use fabric_network_builder.Cli.Args.Options.{ParseError, help, usage_error, fuel_spent, str}
use fabric_network_builder.Cli.Args.Parse.{Invocation}
use fabric_network_builder.Cli.Owner.{Owner, OwnerError}
use fabric_network_builder.Cli.Commands.{CommandError, usage, other, exit_code, ended, owned}

-- The command line asks for help, or names a command that succeeds, with an owner that is known.
abbrev pub Succeeds :
    (Bytes → Result OwnerError (Option Owner))
    → (Invocation → Option Owner → Result CommandError (Unit {0}))
    → Result ParseError Invocation
    → Type 0
Succeeds chown command (err (help cmd)) = Unit
Succeeds chown command (err (usage_error cmd m)) = ⊥
Succeeds chown command (err fuel_spent) = ⊥
Succeeds chown command (ok inv) = record {
  0 : Option Owner;
  1 : chown (str inv.v (codes "chown") []) ≡ ok «0»;
  2 : command inv «0» ≡ ok tt;
}

module _ (chown : Bytes → Result OwnerError (Option Owner))
    (command : Invocation → Option Owner → Result CommandError (Unit {0})) where
  ended-zero : (r : Result CommandError (Unit {0})) → (ended r ≡ 0) ↔ (r ≡ ok tt)
  ended-zero (ok u) = (λ e. refl, λ e. refl)
  ended-zero (err usage) = (λ e. ground (arith, e), λ e. ground (arith, e))
  ended-zero (err other) = (λ e. ground (arith, e), λ e. ground (arith, e))

  owned-zero :
      (inv : Invocation) (r : Result OwnerError (Option Owner))
      → (owned (command inv) r ≡ 0)
        ↔ record { 0 : Option Owner; 1 : r ≡ ok «0»; 2 : command inv «0» ≡ ok tt }
  owned-zero inv (ok o) = (
    λ e. (o, refl, (ended-zero (command inv o)).0 e),
    λ s. (ended-zero (command inv o)).1 (cc (s.1, s.2)),
  )
  owned-zero inv (err e) = (λ z. ground (arith, z), λ s. ground (arith, s.1))

  -- The exit code is zero exactly when the command line asks for help, or is an invocation with an
  -- owner that is known and whose command succeeds.
  pub exit_code_iff :
      (r : Result ParseError Invocation)
      → (exit_code chown command r ≡ 0) ↔ Succeeds chown command r
  unfolding exit_code
  exit_code_iff (err (help cmd)) = (λ e. tt, λ s. refl)
  exit_code_iff (err (usage_error cmd m)) = (λ e. omega (arith, e), λ s. elim s [ ])
  exit_code_iff (err fuel_spent) = (λ e. omega (arith, e), λ s. elim s [ ])
  exit_code_iff (ok inv) = owned-zero inv (chown (str inv.v (codes "chown") []))
