-- ===== src/Wireguard.antt =====
-- daemon/src/wireguard.rs: the live view of the interface, and the boundary that the daemon speaks
-- to. Its parts are the modules below.
pub mod Validate
pub mod Commands
pub mod Routes
pub mod Pruning
pub mod Table
pub mod Firewall
pub mod Guards
pub mod Kernel
pub mod Backend
pub mod Resolvconf
pub mod Sound
use wirefinder.Prelude.{ℕ, Option, List}
use wirefinder.Text.{Text}
use wirefinder.External.{SocketAddr, Resolver, SystemTime}
use wirefinder.Exec.{Exec}
use wirefinder.Config.{ServerConfig}

pub record LivePeer : Type 0 where
  pub public_key : Text
  pub endpoint : Option Text
  pub allowed_ips : List Text
  pub last_handshake : Option SystemTime
  pub rx_bytes : ℕ
  pub tx_bytes : ℕ

pub record LiveInterface : Type 0 where
  pub name : Text
  pub public_key : Option Text
  pub listen_port : ℕ
  pub peers : List LivePeer

-- `trait Wireguard` over a backend's state. The answers of the resolver, which Rust's code takes
-- from its surroundings, are an argument.
pub record Wireguard (S : Type 0) : Type 0 where
  pub disconnect : Exec S (Unit {0})
  pub switch : Resolver → ServerConfig → Exec S SocketAddr
  pub status : Exec S LiveInterface
