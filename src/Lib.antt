-- ===== src/Lib.antt =====
-- Verification library of fabric-network-builder, a command that generates a Hyperledger Fabric
-- network, starts it with docker compose and installs chaincode on it.
--
-- The parts. The command line (internal/cli) is parsed against a table of options and commands and
-- calls the other parts. `generate` asks internal/topology for the orgs, nodes, ports and policies
-- and renders the configuration files from templates; `up` starts the containers and asks
-- internal/admin to make the channel; `install` asks it to install the chaincode. internal/admin
-- reads the topology back through internal/network.
--
-- The files.
--   Prelude         shared types: bytes and texts, Go's int, results, maps, decimal numbers
--   Cli.Args        internal/cli/args.go: Options has the types and the values of an invocation,
--                   Lookup is `lookup`, Reading is `readOptions`, Parse is `parse`
--   Cli.Spec        internal/cli/spec.go: the tables
--   Topology        internal/topology/topology.go: Options has `Options` and the errors of `New`,
--                   Policies is `computePolicies`, Build is `New`
--   Cli.Prompt      internal/cli/fsutil.go: `askProceed`; Cli.Owner is `parseChown`
--   Cli.Commands    internal/cli/cli.go: what the commands make of an invocation; Cli.Up is what
--                   `up` does behind the start of the nodes
--   Images          internal/cli/images.go: the version test and `resolveImageTags`; Environ is
--                   `composeEnv` and `chaincodeIDs`
--   Vars            internal/network/vars.go: the names and paths of a network; Vars.Read is
--                   `ReadVars` on the text of the file
--   Exec            actions that change a state and may fail, and the rules for what they
--                   guarantee
--   Admin.Exec      the errors of internal/admin, and the loop of `retry`
--   Admin.Service   what internal/admin calls of its environment, as a record of functions on a
--                   state of the world, and the laws that the theorems rely on
--   Admin.Network   internal/admin/admin.go: the connections, `retry`, `forEachPeer`, `forEachOrg`
--   Admin.Channel   internal/admin/channel.go
--   Admin.Install   internal/admin/install.go up to `nextSequence`
--   Admin.Commit    internal/admin/install.go from `approve` on, and `Install`
--   Admin.SystemChannel  internal/admin/systemchannel.go, from `signConfigUpdate` on
--   Admin.Invoke    internal/admin/invoke.go
--   Certs           internal/certs: Environment is what it calls of its environment, Leaves is
--                   `Discover` and `ResolveCA`, Rebuild is `Rebuild` and `BackupPath`, Expiries is
--                   `Expiries`, Reissue is reissue.go; Files has the laws of the file system
--   Examples        runs at concrete inputs
-- A child module has the theorems on its parent, and is named for what it proves.
--
-- How the code is read. A string is the list of its bytes. An int keeps its wrap-around at 64 bits.
-- A function that returns an error returns a result, and an error is a constructor with the values
-- that its message is made of; messages for a person are not written out. The loop of
-- `readOptions` puts the rest of a bundle of short flags back in front of the words, so it runs on
-- fuel: the bytes and the words of the command line, and one more, are enough, since each round
-- takes a byte or a word away. A number is printed on as much fuel as its value, and one more. The
-- port numbers stay below 2^63 where a theorem says so.
-- In internal/admin, an action takes the open connections, the printed lines and the world, and
-- returns them with its result. A peer, an orderer, a file or the clock may answer any call with
-- anything, so that the order of other clients' steps is in the world's answers. A timeout of a
-- call is one of its errors, and the end of a context during a pause is an error of the pause.
-- The first index of an empty list stands for a panic that cannot happen: ReadVars refuses an empty
-- PEER_INDICES or ORG_INDICES. What an orderer sends on a stream is the list of its replies and how
-- the stream ends. A connection to an orderer is closed on each way out of the function that opened
-- it.
-- In internal/certs, an action takes the printed lines and the world. A time is a number of
-- nanoseconds, and a duration keeps the wrap-around of an int64. Other processes do not write the
-- files during a run: that is what the laws of the file system say. The search of a free name for a
-- backup runs on fuel, as the source's loop has no bound; it ends when the fuel exceeds the number
-- of names to try. The walk of a directory is read before the files in it.
--
-- Not modelled. The usage texts; the JSON texts of the collections and of the orderer addresses;
-- the generated files and their templates; docker compose; the order in which the commands but up call
-- the other parts; cryptography, and parsing certificates; opening TLS connections; the
-- libraries of Fabric, also the copy in third_party, of which the policy language is a parameter.
pub mod Prelude
pub mod Exec
pub mod Cli
pub mod Topology
pub mod Images
pub mod Vars
pub mod Admin
pub mod Certs
mod Examples
