-- ===== src/Cli/Spec/Names.antt =====
-- The names of the builder's options.
use fabric_network_builder.Prelude.{◌≡◌, none, some, All, codes, bytes_eq, has_prefix, ok, arith}
use fabric_network_builder.Cli.Spec.{globals, commands}
use fabric_network_builder.Cli.Args.Lookup.{lookup, exact, has_name}

-- No option of the builder hides another: among the options of its level, each name that an option
-- has stands for that option.
pub lookup-names :
    All (λ o. All (λ n. lookup none globals n ≡ ok o) o.names) globals
    × All (λ c. All (λ o. All (λ n. lookup (some c) c.options n ≡ ok o) o.names) c.options) commands
unfolding codes bytes_eq has_prefix lookup exact has_name
lookup-names = ground arith
