-- ===== src/Lib.antt =====
-- wirefinder: a privileged daemon that owns one WireGuard tunnel, and its clients.
--
-- The daemon (daemon/) keeps the configured servers in a state file, answers one request at a time
-- on a Unix socket, and moves the tunnel through an interface of kernel operations. The clients are
-- the command line (cli/) and the window (ui/src-tauri/); both speak the protocol of proto/.
--
-- Which file models which part:
--   Proto             proto/src/lib.rs: the messages and the list filter
--   Config            daemon/src/config.rs: servers, lookups, the views without secrets
--   Config/Store      the `Store` of that file, over Config/Store/Fs: one directory, where each call
--                     of the file system takes its outcome from a script of faults
--   Keys              daemon/src/keys.rs
--   WgConf            daemon/src/wgconf.rs, its three `expect` calls as errors that begin with `panic`;
--                     WgConf/Print writes the canonical file of a configuration, for the round trip
--   Wireguard         daemon/src/wireguard.rs: Validate (parsing and endpoint resolution), Routes,
--                     Firewall, Kernel (`KernelWireguard` over `WgOps`), Commands, Backend and
--                     Resolvconf (`KernelWgOps`, the programs that it runs, the name of the
--                     resolver's entry); Table is the routes as a state, and Kernel/System is what
--                     the operations are documented to do, on views of the system
--   Daemon            daemon/src/daemon.rs: State, Servers, Status and Handle; Daemon/Directory is
--                     what it promises of its servers, as a directory from names to servers
--   Server            daemon/src/server.rs, and `request` of proto/src/lib.rs; Server/Bind is the set-up
--                     of the socket, over its directory and its path, with a script of faults too
--   Main              daemon/src/main.rs: the start of the daemon and its end by a signal
--   Ui                ui/src-tauri/src/lib.rs: the commands, and in Ui/Tray the tray and the window
--   Cli               cli/src/main.rs; Cli/Humanize has its sizes, with exact double-precision values
--   Tests             the two fake backends and the unit tests of the sources, run on the model, and
--                     the theorems at concrete inputs
--   Prelude, Text, Result, Exec, External   shared: texts as lists of code points, errors as text,
--                     actions on a state that keep it when they fail, and what the program only calls
--
-- An operation is a function of the same name. State is passed explicitly: `Exec S A` is a function
-- from a state to a result and the state after it, also when the result is an error. A request takes
-- what Rust's code takes from its surroundings (clocks, a generated key, the resolver's answers) as a
-- `Moment`. Every loop is structural recursion. Fuel is taken twice: printing `n` takes `n + 1` rounds,
-- which are enough for its digits, since a parser of numbers reads them back; and the exponent of the
-- double at a u64 takes 11 halvings, which bring a u64 below 2 ^ 53. The accept loop
-- is run over the clients of one life of the daemon, and a life ends by a signal or by being killed,
-- between two clients; a save that is cut short is one whose next call fails.
--
-- Not modelled: the crate defguard_wireguard_rs, serde_json, the Unicode tables and the socket
-- address parser, which are fields of `External`, `Codec` and `Json`; the random generator, whose key
-- is an input; the log lines; the framework of the window, of which
-- Ui/Tray takes the handles; the front end in TypeScript; packaging.
-- Ports and sizes are natural numbers, with their Rust ranges stated where a number is read. Of the
-- unit tests, one is left out: it asks the random generator twice.
mod Prelude
pub mod Text
pub mod Result
pub mod Proto
pub mod External
pub mod Keys
pub mod Config
pub mod WgConf
pub mod Exec
pub mod Wireguard
pub mod Daemon
pub mod Server
pub mod Main
pub mod Ui
pub mod Cli
mod Tests
