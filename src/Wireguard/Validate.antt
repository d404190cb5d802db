-- ===== src/Wireguard/Validate.antt =====
-- The pure part of daemon/src/wireguard.rs: validation of a server and its conversion into a peer.
use wirefinder.Prelude.{ℕ, Option, none, some, List, [], ◌∷◌, ◌++◌, if◌then◌else◌}
use wirefinder.Prelude.Lists.{is_empty}
use wirefinder.Text.{Text, lit, trim}
use wirefinder.Result.{Result, ok, err, ◌>>=◌, map_err, ok_or, to_option, traverse}
use wirefinder.External.{
  External, IpAddr, IpAddrMask, SocketAddr, Lookup, answered, failed, timed_out, Resolver, Peer,
  InterfaceConfiguration,
}
use wirefinder.Config.{ServerConfig}

-- `format!("server '{}': …", server.name)`
abbrev pub about : ServerConfig → Text → Text
about server what = lit "server '" ++ (server.name ++ (lit "': " ++ what))

abbrev pub interface_name : Text
interface_name = lit "wirefinder"

module _ (x : External) where
  unfoldable pub from_lookup : ServerConfig → Lookup → Result SocketAddr
  from_lookup server (answered (addr ∷ rest)) = ok addr
  from_lookup server (answered []) = err (about server (lit "endpoint resolved to no addresses"))
  from_lookup server (failed e) = err (about server (lit "cannot resolve endpoint: " ++ e))
  from_lookup server timed_out = err (about server (lit "endpoint resolution timed out"))

  unfoldable pub resolve_endpoint : Resolver → ServerConfig → Result SocketAddr
  unfolding from_lookup
  resolve_endpoint resolve server =
      let endpoint = trim server.endpoint in
      elim (x.parse_socket_addr endpoint) [
        | ok addr ↦ ok addr
        | err _ ↦ from_lookup server (resolve endpoint)
      ]

  from_cache : Text → Option Text → Result SocketAddr
  from_cache e none = err e
  from_cache e (some c) = ok_or (to_option (x.parse_socket_addr c)) e

  unfoldable pub or_cached : Result SocketAddr → Option Text → Result SocketAddr
  unfolding from_cache
  or_cached (ok addr) cached = ok addr
  or_cached (err e) cached = from_cache e cached

  unfoldable pub endpoint_addr : Resolver → ServerConfig → Result SocketAddr
  endpoint_addr resolve server =
      or_cached (resolve_endpoint resolve server) server.resolved_endpoint

  unfoldable pub parse_address : ServerConfig → Text → Result IpAddrMask
  parse_address server a =
      map_err (λ e. about server (lit "bad address '" ++ (a ++ (lit "': " ++ e))))
        (x.parse_mask (trim a))

  unfoldable pub parse_addresses : ServerConfig → Result (List IpAddrMask)
  parse_addresses server =
      if is_empty server.addresses
      then err (about server (lit "at least one address required"))
      else traverse (parse_address server) server.addresses

  unfoldable pub parse_allowed_ip : ServerConfig → Text → Result IpAddrMask
  parse_allowed_ip server ip =
      map_err (λ e. about server (lit "bad allowed_ip '" ++ (ip ++ (lit "': " ++ e))))
        (x.parse_mask (trim ip))

  unfoldable pub parse_dns_entry : ServerConfig → Text → Result IpAddr
  parse_dns_entry server s =
      map_err (λ e. about server (lit "bad dns '" ++ (s ++ (lit "': " ++ e)))) (x.parse_ip (trim s))

  unfoldable pub parse_dns : ServerConfig → Result (List IpAddr)
  parse_dns server = traverse (parse_dns_entry server) server.dns

  unfoldable pub parse_named_key : ServerConfig → Text → Text → Result x.Key
  parse_named_key server field text =
      map_err (λ e. about server (lit "bad " ++ (field ++ (lit ": " ++ e))))
        (x.parse_key (trim text))

  -- `as_ref().map(…).transpose()`
  unfoldable pub parse_preshared : ServerConfig → Option Text → Result (Option x.Key)
  parse_preshared server none = ok none
  parse_preshared server (some s) = do
    key ← parse_named_key server (lit "preshared_key") s
    ok (some key)

  unfoldable pub build_peer : Resolver → ServerConfig → Result (Peer x.Key)
  build_peer resolve server = do
    key ← parse_named_key server (lit "public_key") server.public_key
    endpoint ← endpoint_addr resolve server
    allowed_ips ← traverse (parse_allowed_ip server) server.allowed_ips
    preshared_key ← parse_preshared server server.preshared_key
    let peer = x.new_peer key
    ok (record peer {
      endpoint = some endpoint;
      allowed_ips = peer.allowed_ips ++ allowed_ips;
      persistent_keepalive_interval = server.keepalive;
      preshared_key = preshared_key;
    })

  unfoldable pub peer_endpoint : ServerConfig → Peer x.Key → Result SocketAddr
  peer_endpoint server peer =
      ok_or peer.endpoint (about server (lit "endpoint resolved to no addresses"))

  unfoldable pub validate_server : Resolver → ServerConfig → Result SocketAddr
  validate_server resolve server = do
    private ← parse_named_key server (lit "private_key") server.private_key
    peer ← build_peer resolve server
    dns ← parse_dns server
    addresses ← parse_addresses server
    peer_endpoint server peer

  unfoldable pub build_interface_config :
      ServerConfig → List (Peer x.Key) → Option ℕ → Result (InterfaceConfiguration x.Key)
  build_interface_config server peers fwmark = do
    private ← parse_named_key server (lit "private_key") server.private_key
    addresses ← parse_addresses server
    ok (record {
      name = interface_name;
      prvkey = trim server.private_key;
      addresses = addresses;
      port = server.listen_port;
      peers = peers;
      mtu = server.mtu;
      fwmark = fwmark;
    })
