-- ===== src/Cli/Args.antt =====
-- The command line parser of internal/cli/args.go.
pub mod Options
pub mod Lookup
pub mod Reading
pub mod Parse
