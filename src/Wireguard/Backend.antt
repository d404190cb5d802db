-- ===== src/Wireguard/Backend.antt =====
-- `KernelWgOps` of daemon/src/wireguard.rs: the kernel operations, from the crate's `WGApi<Kernel>`
-- and the programs that the daemon
-- runs.
use wirefinder.Prelude.{Option, none, List, []}
use wirefinder.Text.{Text}
use wirefinder.External.{External, IpAddr, Peer, InterfaceConfiguration, Host}
use wirefinder.Exec.{Exec, ◌>>◌}
use wirefinder.Wireguard.Commands.{Runner, run_nft, reset_resolvconf}
use wirefinder.Wireguard.Resolvconf.{System, resolvconf_ifname}
use wirefinder.Wireguard.Firewall.{nft_script}
use wirefinder.Wireguard.Routes.{ip_route, installed_split_routes, sync_split_routes}
use wirefinder.Wireguard.Kernel.{WgOps}

-- `WGApi<Kernel>`, by the methods that the source calls; `open` is its constructor.
pub record WgApi (Key S : Type 0) : Type 0 where
  pub open_api : Exec S (Unit {0})
  pub create_interface : Exec S (Unit {0})
  pub remove_interface : Exec S (Unit {0})
  pub configure_interface : InterfaceConfiguration Key → Exec S (Unit {0})
  pub configure_peer_routing : List (Peer Key) → Exec S (Unit {0})
  pub configure_dns : List IpAddr → List Text → Exec S (Unit {0})
  pub read_interface_data : Exec S (Host Key)

module _ (x : External) (entries : Text → Option (List (Option Text))) {S : Type 0}
    (api : WgApi x.Key S) (run : Runner S) (system : System) (ifname : Text) where
  unfoldable pub kernel_ops : WgOps x.Key S
  kernel_ops = record {
    create_interface = (do api.open_api; api.create_interface);
    remove_interface = (do api.open_api; api.remove_interface);
    configure_interface = λ cfg. (do api.open_api; api.configure_interface cfg);
    configure_peer_routing = λ peers. (do api.open_api; api.configure_peer_routing peers);
    sync_split_routes = λ prefixes.
        sync_split_routes (ip_route x entries run ifname)
          (installed_split_routes x entries run ifname) prefixes;
    apply_firewall = λ own mark. run_nft run (nft_script x ifname own mark);
    clear_firewall = run_nft run (nft_script x ifname [] none);
    configure_dns = λ dns domains. (do api.open_api; api.configure_dns dns domains);
    reset_dns = reset_resolvconf run (resolvconf_ifname system ifname);
    read_interface_data = (do api.open_api; api.read_interface_data);
  }
