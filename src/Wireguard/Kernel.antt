-- ===== src/Wireguard/Kernel.antt =====
-- `KernelWireguard` of daemon/src/wireguard.rs: how the intents of the daemon become a sequence of
-- kernel operations, over the interface `WgOps` of these operations.
pub mod Survival
pub mod Recording
pub mod Order
pub mod Plan
pub mod System
pub mod Effects
pub mod Settled
pub mod Reports
pub mod Success
use wirefinder.Prelude.{
  ℕ, not, ◌==◌, Option, none, some, List, [], ◌∷◌, map, map_some, keep, and_then,
}
use wirefinder.Prelude.Lists.{is_empty}
use wirefinder.Text.{Text}
use wirefinder.Result.{Result, ok, err, to_option}
use wirefinder.External.{
  External, IpAddr, IpAddrMask, SocketAddr, Resolver, Peer, InterfaceConfiguration, Host,
}
use wirefinder.Exec.{Exec, pure, lift, attempt, ◌>>=◌, ◌>>◌}
use wirefinder.Config.{ServerConfig}
use wirefinder.Wireguard.{LivePeer, LiveInterface, Wireguard}
use wirefinder.Wireguard.Validate.{
  interface_name, build_peer, parse_dns, parse_addresses, peer_endpoint, build_interface_config,
}
use wirefinder.Wireguard.Routes.{split_route_prefixes}

-- `trait WgOps`
pub record WgOps (Key : Type 0) (S : Type 0) : Type 0 where
  pub create_interface : Exec S (Unit {0})
  pub remove_interface : Exec S (Unit {0})
  pub configure_interface : InterfaceConfiguration Key → Exec S (Unit {0})
  pub configure_peer_routing : List (Peer Key) → Exec S (Unit {0})
  pub sync_split_routes : List IpAddrMask → Exec S (Unit {0})
  pub apply_firewall : List IpAddrMask → Option ℕ → Exec S (Unit {0})
  pub clear_firewall : Exec S (Unit {0})
  pub configure_dns : List IpAddr → List Text → Exec S (Unit {0})
  pub reset_dns : Exec S (Unit {0})
  pub read_interface_data : Exec S (Host Key)

module _ {Key : Type 0} where
  -- `.ok().and_then(|host| host.fwmark).filter(|m| *m != 0)`
  abbrev pub known_fwmark : Result (Host Key) → Option ℕ
  known_fwmark (ok host) = keep (λ m. not (m == 0)) host.fwmark
  known_fwmark (err _) = none

module _ (x : External) {S : Type 0} (ops : WgOps x.Key S) where
  unfoldable pub bring_up_with : InterfaceConfiguration x.Key → Exec S (Unit {0})
  bring_up_with cfg = do attempt ops.create_interface; ops.configure_interface cfg; pure tt

  -- A failed reset is only logged.
  unfoldable pub apply_dns : List IpAddr → Exec S (Unit {0})
  apply_dns [] = do attempt ops.reset_dns; pure tt
  apply_dns (d ∷ ds) = ops.configure_dns (d ∷ ds) []

  -- The interface goes first, and the packet filter after it, best-effort.
  unfoldable pub disconnect : Exec S (Unit {0})
  disconnect = do removed ← attempt ops.remove_interface; attempt ops.clear_firewall; lift removed

  -- Warm if the interface can be read, with the mark that it has; cold if not.
  unfoldable pub configure : ServerConfig → Peer x.Key → Result (Host x.Key) → Exec S (Unit {0})
  unfolding bring_up_with
  configure server peer (ok host) = do
    cfg ← lift (build_interface_config x server (peer ∷ []) host.fwmark)
    ops.configure_interface cfg
  configure server peer (err _) = do
    cfg ← lift (build_interface_config x server (peer ∷ []) none)
    bring_up_with cfg

  unfoldable pub switch : Resolver → ServerConfig → Exec S SocketAddr
  switch resolve server = do
    peer ← lift (build_peer x resolve server)
    let split = split_route_prefixes x peer
    dns ← lift (parse_dns x server)
    addresses ← lift (parse_addresses x server)
    endpoint ← lift (peer_endpoint x server peer)
    read ← attempt ops.read_interface_data
    configure server peer read
    ops.configure_peer_routing (peer ∷ [])
    ops.sync_split_routes split
    read_again ← attempt ops.read_interface_data
    ops.apply_firewall addresses (known_fwmark read_again)
    apply_dns dns
    pure endpoint

  live_peer : Peer x.Key → LivePeer
  live_peer p = record {
    public_key = x.show_key p.public_key;
    endpoint = map_some x.show_socket_addr p.endpoint;
    allowed_ips = map x.show_mask p.allowed_ips;
    last_handshake = p.last_handshake;
    rx_bytes = p.rx_bytes;
    tx_bytes = p.tx_bytes;
  }

  unfoldable pub status : Exec S LiveInterface
  unfolding live_peer
  status = do
    host ← ops.read_interface_data
    pure (record {
      name = interface_name;
      public_key = map_some (λ k. x.show_key (x.public_key k)) host.private_key;
      listen_port = host.listen_port;
      peers = map live_peer host.peers;
    })

  abbrev pub kernel_wireguard : Wireguard S
  kernel_wireguard = record { disconnect = disconnect; switch = switch; status = status }
