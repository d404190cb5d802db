-- ===== src/Wireguard/Kernel/Plan.antt =====
-- The calls of a switch that succeeds, in their order, as the module comment of
-- daemon/src/wireguard.rs lays them out.
use mathlib.Core.Path.{subst}
use wirefinder.Prelude.{ℕ, Option, none, List, [], ◌∷◌, ◌++◌, ◌≡◌, refl, sym, ap, ◌∙◌}
use wirefinder.Result.{Result, ok, err}
use wirefinder.External.{
  External, IpAddr, IpAddrMask, SocketAddr, Resolver, Peer, InterfaceConfiguration, Host,
}
use wirefinder.Exec.{Exec, lift, attempt, pure, ◌>>=◌, ◌>>◌}
use wirefinder.Exec.Inversion.{bind-eq-ok, lift-eq-ok, pure-eq-ok}
use wirefinder.Config.{ServerConfig}
use wirefinder.Wireguard.Validate.{
  build_peer, parse_dns, parse_addresses, peer_endpoint, build_interface_config,
}
use wirefinder.Wireguard.Routes.{split_route_prefixes}
use wirefinder.Wireguard.Kernel.{WgOps, known_fwmark, configure, apply_dns, switch}
use wirefinder.Wireguard.Kernel.Recording.{
  Call, create, reset, read, config, routing, split, firewall, dns, Logged, logging, recording,
  replay, Makes, chain, Makes-to, Makes-from, logging-eq-ok, attempt-logging-eq-ok,
}

module _ {Key : Type 0} where
  -- The mark that the interface has when the switch begins: none if it cannot be read.
  abbrev pub mark_of : Result (Host Key) → Option ℕ
  mark_of (ok host) = host.fwmark
  mark_of (err e) = none

  -- Warm: configured in place. Cold: created, then configured.
  abbrev pub bring_up : Result (Host Key) → InterfaceConfiguration Key → List (Call Key)
  bring_up (ok host) cfg = config cfg ∷ []
  bring_up (err e) cfg = create ∷ config cfg ∷ []

  abbrev pub set_resolver : List IpAddr → Call Key
  set_resolver [] = reset
  set_resolver (d ∷ ds) = dns (d ∷ ds)

module _ (x : External) where
  -- The calls up to the second reading of the interface.
  abbrev pub opening :
      Peer x.Key → Result (Host x.Key) → InterfaceConfiguration x.Key → List (Call x.Key)
  opening peer first cfg =
      read
      ∷ (bring_up first cfg ++ (routing (peer ∷ []) ∷ split (split_route_prefixes x peer) ∷ []))

  -- The second reading and the calls that follow it.
  abbrev pub closing : List IpAddrMask → Option ℕ → List IpAddr → List (Call x.Key)
  closing own mark servers = read ∷ firewall own mark ∷ set_resolver servers ∷ []

module _ (x : External) {S : Type 0} (ops : WgOps x.Key S) (resolve : Resolver)
    (server : ServerConfig) where
  -- The parts of a server that parses, and the calls that they make from a backend: the mark of the
  -- configuration is that of the reading there, and the mark of the packet filter is that of the
  -- reading after the opening calls.
  pub record IsPlan (s : S) (calls : List (Call x.Key)) : Type 0 where
    pub peer : Peer x.Key
    pub own : List IpAddrMask
    pub servers : List IpAddr
    pub cfg : InterfaceConfiguration x.Key
    pub peer_ok : build_peer x resolve server ≡ ok peer
    pub own_ok : parse_addresses x server ≡ ok own
    pub servers_ok : parse_dns x server ≡ ok servers
    pub cfg_ok :
        build_interface_config x server (peer ∷ []) (mark_of (ops.read_interface_data s).0) ≡ ok cfg
    pub calls_are :
        let opened = opening x peer (ops.read_interface_data s).0 cfg in
        calls
        ≡ opened
          ++ closing x own (known_fwmark (ops.read_interface_data (replay ops opened s)).0) servers

module _ (x : External) {S : Type 0} (ops : WgOps x.Key S) where
  configure_calls :
      (server : ServerConfig) (peer : Peer x.Key) (first : Result (Host x.Key)) (l : Logged x.Key S)
      {t : Logged x.Key S}
      → configure x (recording ops) server peer first l ≡ (ok tt, t)
      → (cfg : InterfaceConfiguration x.Key) × (build_interface_config x server
            (peer ∷ [])
            (mark_of first)
          ≡ ok cfg)
        × Makes ops l t (bring_up first cfg)
  unfolding configure recording
  configure_calls server peer (ok host) l h =
      let (cfg, s, e, k) =
        bind-eq-ok (lift (build_interface_config x server (peer ∷ []) host.fwmark)) _ l h in
      let (c_ok, same) = lift-eq-ok (build_interface_config x server (peer ∷ []) host.fwmark) l e in
      (
        cfg,
        c_ok,
        Makes-from (sym same)
            (logging-eq-ok ops (config cfg) (ops.configure_interface cfg) (λ _. refl) s k),
      )
  configure_calls server peer (err _) l h =
      let (cfg, s, e, k) =
        bind-eq-ok (lift (build_interface_config x server (peer ∷ []) none)) _ l h in
      let (c_ok, same) = lift-eq-ok (build_interface_config x server (peer ∷ []) none) l e in
      let (_, u, made, k2) = bind-eq-ok (attempt (logging create ops.create_interface)) _ s k in
      let (_, v, set, k3) =
        bind-eq-ok (logging (config cfg) (ops.configure_interface cfg)) _ u k2 in
      let all =
        chain (attempt-logging-eq-ok ops create ops.create_interface (λ _. refl) s made).1
          (logging-eq-ok ops (config cfg) (ops.configure_interface cfg) (λ _. refl) u set) in
      (cfg, c_ok, Makes-from (sym same) (Makes-to (pure-eq-ok tt v k3) all))

  apply_dns_calls :
      (servers : List IpAddr) (l : Logged x.Key S) {t : Logged x.Key S}
      → apply_dns x (recording ops) servers l ≡ (ok tt, t)
      → Makes ops l t (set_resolver servers ∷ [])
  unfolding apply_dns recording
  apply_dns_calls [] l h =
      let (_, s, made, k) = bind-eq-ok (attempt (logging reset ops.reset_dns)) _ l h in
      Makes-to (pure-eq-ok tt s k)
        (attempt-logging-eq-ok ops reset ops.reset_dns (λ _. refl) l made).1
  apply_dns_calls (d ∷ ds) l h =
      logging-eq-ok ops (dns (d ∷ ds)) (ops.configure_dns (d ∷ ds) []) (λ _. refl) l h

  -- What follows the parsing of the server, by its calls.
  record IsDriven (server : ServerConfig) (peer : Peer x.Key) (own : List IpAddrMask)
      (servers : List IpAddr) (first : Result (Host x.Key)) (l t : Logged x.Key S) : Type 0 where
    cfg : InterfaceConfiguration x.Key
    cfg_ok : build_interface_config x server (peer ∷ []) (mark_of first) ≡ ok cfg
    makes :
        let opened = opening x peer first cfg in
        Makes ops l t (
          opened
          ++ closing x own
              (known_fwmark (ops.read_interface_data (replay ops opened l.backend)).0)
              servers)

  drive :
      ServerConfig
      → Peer x.Key
      → List IpAddrMask
      → List IpAddr
      → SocketAddr
      → Exec (Logged x.Key S) SocketAddr
  drive server peer own servers endpoint = do
    first ← attempt (recording ops).read_interface_data
    configure x (recording ops) server peer first
    (recording ops).configure_peer_routing (peer ∷ [])
    (recording ops).sync_split_routes (split_route_prefixes x peer)
    again ← attempt (recording ops).read_interface_data
    (recording ops).apply_firewall own (known_fwmark again)
    apply_dns x (recording ops) servers
    pure endpoint

  drive-IsDriven :
      (server : ServerConfig) (peer : Peer x.Key) (own : List IpAddrMask) (servers : List IpAddr)
      (endpoint : SocketAddr) (l : Logged x.Key S) {addr : SocketAddr} {t : Logged x.Key S}
      → drive server peer own servers endpoint l ≡ (ok addr, t)
      → IsDriven server peer own servers (ops.read_interface_data l.backend).0 l t
  unfolding drive recording
  drive-IsDriven server peer own servers endpoint s4 {addr} {t} h4 =
      let (first, s5, e5, h5) = bind-eq-ok (attempt (recording ops).read_interface_data) _ s4 h4 in
      let (_, s6, e6, h6) = bind-eq-ok (configure x (recording ops) server peer first) _ s5 h5 in
      let (_, s7, e7, h7) =
        bind-eq-ok ((recording ops).configure_peer_routing (peer ∷ [])) _ s6 h6 in
      let (_, s8, e8, h8) =
        bind-eq-ok ((recording ops).sync_split_routes (split_route_prefixes x peer)) _ s7 h7 in
      let (again, s9, e9, h9) = bind-eq-ok (attempt (recording ops).read_interface_data) _ s8 h8 in
      let mark = known_fwmark again in
      let (_, s10, e10, h10) = bind-eq-ok ((recording ops).apply_firewall own mark) _ s9 h9 in
      let (_, s11, e11, h11) = bind-eq-ok (apply_dns x (recording ops) servers) _ s10 h10 in
      let (was, c5) = attempt-logging-eq-ok ops read ops.read_interface_data (λ _. refl) s4 e5 in
      let (cfg, cfg_ok, c6) = configure_calls server peer first s5 e6 in
      let c7 =
        logging-eq-ok ops (routing (peer ∷ [])) (ops.configure_peer_routing (peer ∷ [])) (λ _. refl)
          s6 e7 in
      let c8 =
        logging-eq-ok ops (split (split_route_prefixes x peer)) (ops.sync_split_routes _)
          (λ _. refl) s7 e8 in
      let (same, c9) = attempt-logging-eq-ok ops read ops.read_interface_data (λ _. refl) s8 e9 in
      let c10 =
        logging-eq-ok ops (firewall own mark) (ops.apply_firewall own mark) (λ _. refl) s9 e10 in
      let c11 = apply_dns_calls servers s10 e11 in
      let opened = chain c5 (chain c6 (chain c7 c8)) in
      let told = same ∙ ap (λ b. (ops.read_interface_data b).0) opened.backend_is in
      let made : IsDriven server peer own servers first s4 t = record {
        cfg = cfg;
        cfg_ok = cfg_ok;
        makes =
            subst
              (λ r.
                Makes ops s4 t (opening x peer first cfg ++ closing x own (known_fwmark r) servers))
              told
              (Makes-to (pure-eq-ok endpoint s11 h11) (chain opened (chain c9 (chain c10 c11))));
      } in
      subst (λ r. IsDriven server peer own servers r s4 t) was made

  -- A switch that succeeds has parsed the server and has made exactly these calls, in this order: a
  -- reading of the interface; its configuration, after its creation if the reading failed; the
  -- peer's routing; the split routes; a second reading; the packet filter, with the mark of that
  -- reading; the resolver, set or reset.
  pub switch-IsPlan :
      (resolve : Resolver) (server : ServerConfig) (s : S) {addr : SocketAddr} {t : Logged x.Key S}
      → switch x (recording ops) resolve server (record { backend = s; calls = [] }) ≡ (ok addr, t)
      → IsPlan x ops resolve server s t.calls
  unfolding switch drive
  switch-IsPlan resolve server s {addr} {t} h =
      let l0 : Logged x.Key S = record { backend = s; calls = [] } in
      let (peer, s1, e1, h1) = bind-eq-ok (lift (build_peer x resolve server)) _ l0 h in
      let (servers, s2, e2, h2) = bind-eq-ok (lift (parse_dns x server)) _ s1 h1 in
      let (own, s3, e3, h3) = bind-eq-ok (lift (parse_addresses x server)) _ s2 h2 in
      let (endpoint, s4, e4, h4) = bind-eq-ok (lift (peer_endpoint x server peer)) _ s3 h3 in
      let start : s4 ≡ l0 = sym (
        (lift-eq-ok _ l0 e1).1
        ∙ (lift-eq-ok _ s1 e2).1
        ∙ (lift-eq-ok _ s2 e3).1
        ∙ (lift-eq-ok _ s3 e4).1) in
      let d =
        drive-IsDriven server peer own servers endpoint l0
          (subst (λ k. drive server peer own servers endpoint k ≡ (ok addr, t)) start h4) in
      record {
        peer = peer;
        own = own;
        servers = servers;
        cfg = d.cfg;
        peer_ok = (lift-eq-ok _ l0 e1).0;
        own_ok = (lift-eq-ok _ s2 e3).0;
        servers_ok = (lift-eq-ok _ s1 e2).0;
        cfg_ok = d.cfg_ok;
        calls_are = d.makes.calls_are;
      }
