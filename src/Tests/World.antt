-- ===== src/Tests/World.antt =====
-- A small world in which the program runs: keys are texts, an address is its number in decimal, and
-- the one file holds its configuration in a code that is read back.
use wirefinder.Prelude.{map, ℕ, ◌^◌, Option, none, some, [], ◌∷◌, ◌++◌, if◌then◌else◌}
use wirefinder.Prelude.Lists.{is_empty, length}
use wirefinder.Text.{Text, lit, split_once, parse_unsigned, show_ℕ, to_ascii_lowercase}
use wirefinder.Result.{Result, ok, err, ok_or, ◌>>=◌}
use wirefinder.External.{External, IpAddr, v4, v6, IpAddrMask, SocketAddr, failed, Resolver, Host}
use wirefinder.Exec.{Exec}
use wirefinder.Proto.{ServerSpec}
use wirefinder.Config.{ServerConfig, Config, default}
use wirefinder.Config.Store.{Codec}
use wirefinder.Config.Store.Fs.{FilePath, Disk}
use wirefinder.Wireguard.{Wireguard}
use wirefinder.Wireguard.Kernel.{WgOps, kernel_wireguard}
use wirefinder.Daemon.State.{Moment, Daemon}

abbrev toy_key : Text → Result Text
toy_key t = if is_empty t then err (lit "no key") else ok t

abbrev number : ℕ → Text → Result ℕ
number limit t = ok_or (parse_unsigned limit t) (lit "no number")

abbrev pair : ℕ → Text → Result (Text × Text)
pair sep t = ok_or (split_once sep t) (lit "no separator")

abbrev toy_mask : Text → Result IpAddrMask
toy_mask t = do
  (host, size) ← pair b'/' t
  a ← number (2 ^ 32) host
  n ← number 33 size
  ok (record { address = v4 a; cidr = n })

abbrev toy_ip : Text → Result IpAddr
toy_ip t = do a ← number (2 ^ 32) t; ok (v4 a)

abbrev toy_addr : Text → Result SocketAddr
toy_addr t = do
  (host, port) ← pair b':' t
  a ← number (2 ^ 32) host
  p ← number (2 ^ 16) port
  ok (record { ip = v4 a; port = p })

abbrev shown_ip : IpAddr → Text
shown_ip (v4 a) = show_ℕ a
shown_ip (v6 a) = lit "v6:" ++ show_ℕ a

abbrev pub toy : External
toy = record {
  Key = Text;
  parse_key = toy_key;
  show_key = λ k. k;
  public_key = λ k. b'p' ∷ k;
  new_peer = λ k. record {
    public_key = k;
    endpoint = none;
    allowed_ips = [];
    persistent_keepalive_interval = none;
    preshared_key = none;
    last_handshake = none;
    rx_bytes = 0;
    tx_bytes = 0;
  };
  parse_mask = toy_mask;
  show_mask = λ m. shown_ip m.address ++ (b'/' ∷ show_ℕ m.cidr);
  mask = λ m. v4 0xffffff00;
  parse_ip = toy_ip;
  show_ip = shown_ip;
  parse_socket_addr = toy_addr;
  show_socket_addr = λ a. shown_ip a.ip ++ (b':' ∷ show_ℕ a.port);
  to_lowercase = to_ascii_lowercase;
}

abbrev pub home : ServerConfig
home = record {
  name = lit "home";
  private_key = lit "k";
  public_key = lit "s";
  endpoint = lit "9:51820";
  resolved_endpoint = none;
  addresses = lit "7/24" ∷ [];
  allowed_ips = lit "0/0" ∷ lit "513/24" ∷ [];
  listen_port = 0;
  mtu = some 1380;
  keepalive = some 25;
  preshared_key = some (lit "q");
  dns = lit "5" ∷ [];
}

abbrev pub work : ServerConfig
work = record home { name = lit "work"; private_key = lit "w"; endpoint = lit "vpn:1" }

abbrev pub two_servers : Config
two_servers = record { servers = home ∷ work ∷ [] }

abbrev pub home_spec : ServerSpec
home_spec = record {
  name = lit " home ";
  private_key = none;
  public_key = lit "s";
  endpoint = lit "9:51820";
  addresses = lit "7/24" ∷ [];
  allowed_ips = lit "0/0" ∷ [];
  listen_port = none;
  mtu = none;
  keepalive = some 25;
  preshared_key = none;
  dns = [];
}

-- A resolver that knows nothing.
abbrev pub no_network : Resolver
no_network host = failed (lit "no network")

-- The backend: the interface's mark if it is up.
abbrev pub Up : Type 0
Up = Option ℕ

read_up : Exec Up (Host Text)
read_up none = (err (lit "no interface"), none)
read_up (some mark) = (
  ok (record { listen_port = 1; private_key = some (lit "k"); fwmark = some mark; peers = [] }),
  some mark,
)

abbrev nothing : Exec Up (Unit {0})
nothing up = (ok tt, up)

unfoldable pub toy_ops : WgOps Text Up
unfolding read_up
toy_ops = record {
  create_interface = λ up. (ok tt, some 0);
  remove_interface = λ up. (ok tt, none);
  configure_interface = λ cfg up. (ok tt, some 51820);
  configure_peer_routing = λ peers. nothing;
  sync_split_routes = λ prefixes. nothing;
  apply_firewall = λ own mark. nothing;
  clear_firewall = nothing;
  configure_dns = λ servers domains. nothing;
  reset_dns = nothing;
  read_interface_data = read_up;
}

abbrev pub state_path : FilePath
state_path = record { parent = some (lit "/var/lib/wirefinder"); file_name = lit "state.json" }

-- Writes the number of servers, and reads it as one of two configurations.
abbrev toy_decode : Text → Result Config
toy_decode t = if is_empty t then ok default else ok two_servers

abbrev pub toy_codec : Codec
toy_codec = record { encode = λ c. ok (map (λ s. length s.name) c.servers); decode = toy_decode }

abbrev pub empty_disk : Disk
empty_disk = record { files = λ name. none; faults = [] }

abbrev pub at_noon : Moment
at_noon = record { instant = 100; system_time = 200; generated = lit "g"; resolve = no_network }

abbrev pub fresh : Daemon Up
fresh = record { disk = empty_disk; cfg = default; backend = none; last_connect = none }

abbrev pub configured : Daemon Up
configured = record fresh { cfg = two_servers }

abbrev pub toy_wg : Wireguard Up
toy_wg = kernel_wireguard toy toy_ops

-- The interface is up with the key of `home`.
abbrev pub connected : Daemon Up
connected = record configured { backend = some 51820; last_connect = some 90 }

abbrev pub later : Moment
later = record at_noon { instant = 15000000000 }
