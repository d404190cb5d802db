-- ===== src/Wireguard/Kernel/Success.antt =====
-- `switch` of daemon/src/wireguard.rs returns: a server that validates can be switched to.
use wirefinder.Prelude.{ℕ, Option, List, [], ◌∷◌, ◌≡◌, refl}
use wirefinder.Text.{Text, lit, trim}
use wirefinder.Result.{Result, ok, err, ◌>>=◌}
use wirefinder.External.{
  External, IpAddr, IpAddrMask, SocketAddr, Resolver, Peer, InterfaceConfiguration, Host,
}
use wirefinder.Exec.Returns.{Returns, Returns-pure, Returns-lift, Returns-bind, Returns-attempt}
use wirefinder.Config.{ServerConfig}
use wirefinder.Wireguard.Validate.{
  parse_named_key, build_peer, parse_dns, parse_addresses, peer_endpoint, validate_server,
  build_interface_config, interface_name,
}
use wirefinder.Wireguard.Kernel.{WgOps, apply_dns, configure, switch}

-- The operations that a switch cannot do without succeed. A reading, a creation and a reset may fail.
pub record IsWilling {Key S : Type 0} (ops : WgOps Key S) : Type 0 where
  pub config : (c : InterfaceConfiguration Key) → Returns (ops.configure_interface c) tt
  pub routing : (ps : List (Peer Key)) → Returns (ops.configure_peer_routing ps) tt
  pub split : (prefixes : List IpAddrMask) → Returns (ops.sync_split_routes prefixes) tt
  pub firewall :
      (own : List IpAddrMask) (mark : Option ℕ) → Returns (ops.apply_firewall own mark) tt
  pub set_dns :
      (dns : List IpAddr) (domains : List Text) → Returns (ops.configure_dns dns domains) tt

-- The parts of a server that validates.
record IsParsed (x : External) (resolve : Resolver) (server : ServerConfig) (addr : SocketAddr)
    : Type 0 where
  private : x.Key
  peer : Peer x.Key
  servers : List IpAddr
  own : List IpAddrMask
  private_ok : parse_named_key x server (lit "private_key") server.private_key ≡ ok private
  peer_ok : build_peer x resolve server ≡ ok peer
  servers_ok : parse_dns x server ≡ ok servers
  own_ok : parse_addresses x server ≡ ok own
  endpoint_ok : peer_endpoint x server peer ≡ ok addr

bind-eq-ok_value {ℓ κ} :
    {A : Type ℓ} {B : Type κ} (r : Result A) (f : A → Result B) {b : B}
    → (r >>= f) ≡ ok b
    → (a : A) × (r ≡ ok a) × (f a ≡ ok b)
bind-eq-ok_value (ok a) f h = (a, refl, h)
bind-eq-ok_value (err e) f h = absurd (cc h)

validate_server-IsParsed :
    (x : External) (resolve : Resolver) (server : ServerConfig) {addr : SocketAddr}
    → validate_server x resolve server ≡ ok addr
    → IsParsed x resolve server addr
unfolding validate_server
validate_server-IsParsed x resolve server h =
    let (private, e1, h1) =
      bind-eq-ok_value (parse_named_key x server (lit "private_key") server.private_key) _ h in
    let (peer, e2, h2) = bind-eq-ok_value (build_peer x resolve server) _ h1 in
    let (servers, e3, h3) = bind-eq-ok_value (parse_dns x server) _ h2 in
    let (own, e4, h4) = bind-eq-ok_value (parse_addresses x server) _ h3 in
    record {
      private = private;
      peer = peer;
      servers = servers;
      own = own;
      private_ok = e1;
      peer_ok = e2;
      servers_ok = e3;
      own_ok = e4;
      endpoint_ok = h4;
    }

module _ (x : External) {S : Type 0} (ops : WgOps x.Key S) (willing : IsWilling ops) where
  apply_dns-Returns : (servers : List IpAddr) → Returns (apply_dns x ops servers) tt
  unfolding apply_dns
  apply_dns-Returns [] = Returns-attempt _ _ λ _. Returns-pure tt
  apply_dns-Returns (d ∷ ds) = willing.set_dns (d ∷ ds) []

  built : ServerConfig → Peer x.Key → List IpAddrMask → Option ℕ → InterfaceConfiguration x.Key
  built server peer own mark = record {
    name = interface_name;
    prvkey = trim server.private_key;
    addresses = own;
    port = server.listen_port;
    peers = peer ∷ [];
    mtu = server.mtu;
    fwmark = mark;
  }

  build-eq-ok :
      (resolve : Resolver) (server : ServerConfig) {addr : SocketAddr}
      (p : IsParsed x resolve server addr) (mark : Option ℕ)
      → build_interface_config x server (p.peer ∷ []) mark ≡ ok (built server p.peer p.own mark)
  unfolding build_interface_config built
  build-eq-ok resolve server p mark = rw (p.private_ok, p.own_ok) refl

  configure-Returns :
      (resolve : Resolver) (server : ServerConfig) {addr : SocketAddr}
      (p : IsParsed x resolve server addr) (first : Result (Host x.Key))
      → Returns (configure x ops server p.peer first) tt
  unfolding configure
  configure-Returns resolve server p (ok host) =
      Returns-bind _ _ (Returns-lift _ (build-eq-ok resolve server p _)) (willing.config _)
  configure-Returns resolve server p (err e) =
      Returns-bind _ _ (Returns-lift _ (build-eq-ok resolve server p _))
        (Returns-attempt _ _ λ _. Returns-bind _ _ (willing.config _) (Returns-pure tt))

  -- If the operations that it needs succeed, whatever comes of the readings, a creation and a reset: a
  -- switch to a server that validates returns, and with the address that the validation gave.
  pub switch-Returns :
      (resolve : Resolver) (server : ServerConfig) {addr : SocketAddr}
      → validate_server x resolve server ≡ ok addr
      → Returns (switch x ops resolve server) addr
  unfolding switch
  switch-Returns resolve server valid =
      let p = validate_server-IsParsed x resolve server valid in
      Returns-bind _ _ (Returns-lift _ p.peer_ok) (
        Returns-bind _ _ (Returns-lift _ p.servers_ok) (
          Returns-bind _ _ (Returns-lift _ p.own_ok) (
            Returns-bind _ _ (Returns-lift _ p.endpoint_ok) (
              Returns-attempt _ _ λ first.
                Returns-bind _ _ (configure-Returns resolve server p first) (
                  Returns-bind _ _ (willing.routing _) (
                    Returns-bind _ _ (willing.split _) (
                      Returns-attempt _ _ λ again.
                        Returns-bind _ _ (willing.firewall _ _)
                          (Returns-bind _ _ (apply_dns-Returns p.servers) (Returns-pure _)))))))))
