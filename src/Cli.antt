-- ===== src/Cli.antt =====
-- internal/cli: the parser of the command line, its tables, and the commands.
pub mod Args
pub mod Spec
pub mod Prompt
pub mod Owner
pub mod Commands
pub mod Up
