-- ===== src/Daemon.antt =====
-- daemon/src/daemon.rs: the daemon's state, its handlers and what is proved of them, in the modules
-- below.
pub mod State
pub mod Directory
pub mod Refinement
pub mod Servers
pub mod Status
pub mod Handle
pub mod Changes
pub mod Invariant
pub mod Saved
pub mod Commit
pub mod Edit
pub mod Durability
pub mod Secrets
pub mod Tunnel
pub mod Active
pub mod Single
pub mod Liveness
pub mod Import
