-- ===== src/Wireguard/Kernel/Settled.antt =====
-- `switch`, `disconnect` and `status` of daemon/src/wireguard.rs by what they leave of the system.
use mathlib.Core.Path.{subst}
use wirefinder.Prelude.{ℕ, Option, Bool, some, List, [], ◌∷◌, ◌++◌, ◌≡◌, sym, ap, ◌∙◌}
use wirefinder.Result.{Result, ok}
use wirefinder.External.{
  External, IpAddr, IpAddrMask, SocketAddr, Resolver, Peer, InterfaceConfiguration, Host,
}
use wirefinder.Exec.{Exec, lift, attempt, pure, ◌>>=◌, ◌>>◌}
use wirefinder.Exec.Inversion.{bind-eq-ok, lift-eq-ok, attempt-eq-ok, pure-eq-ok, pure-eq-ok_value}
use wirefinder.Config.{ServerConfig}
use wirefinder.Wireguard.Validate.{
  build_peer, parse_dns, parse_addresses, peer_endpoint, build_interface_config,
}
use wirefinder.Wireguard.Routes.{wants, split_route_prefixes}
use wirefinder.Wireguard.Kernel.{WgOps, known_fwmark, configure, apply_dns, switch}
use wirefinder.Wireguard.Kernel.Effects.{ran, IsResolved, configure-IsBrought, guard-IsGuarded}
use wirefinder.Wireguard.Kernel.System.{unmarked, Views, IsSystem}
use wirefinder.Wireguard.Kernel.Recording.{
  Call, read, routing, split, firewall, perform, replay, replay-append,
}
use wirefinder.Wireguard.Kernel.Plan.{mark_of, bring_up, opening}

module _ (x : External) {S : Type 0} (ops : WgOps x.Key S) (v : Views x.Key S)
    (system : IsSystem x ops v) where
  open v use {interface, mark, routed, filter, resolver}

  -- What a switch from `s` whose first reading is `first` leaves: the interface, its split routes
  -- and no others, and the filter of the addresses with the mark that the second reading told, which
  -- is the interface's; the resolver is set or reset after the calls up to the filter.
  pub record IsLeft (server : ServerConfig) (peer : Peer x.Key) (own : List IpAddrMask)
      (servers : List IpAddr) (first : Result (Host x.Key)) (s t : S) : Type 0 where
    pub cfg : InterfaceConfiguration x.Key
    pub cfg_ok : build_interface_config x server (peer ∷ []) (mark_of first) ≡ ok cfg
    pub interface_is : interface t ≡ some (unmarked cfg)
    pub routed_is : (q : IpAddrMask) → routed t q ≡ wants (split_route_prefixes x peer) q
    pub second : Result (Host x.Key)
    pub second_is : (ops.read_interface_data (replay ops (opening x peer first cfg) s)).0 ≡ second
    pub filter_is : filter t ≡ some (record { own = own; mark = known_fwmark second })
    pub mark_is : (host : Host x.Key) → second ≡ ok host → host.fwmark ≡ mark t
    pub resolver_is :
        IsResolved x ops v system servers
          (replay ops
            (opening x peer first cfg ++ (read ∷ firewall own (known_fwmark second) ∷ []))
            s)
          t

  -- The switch has parsed the server.
  pub record IsSettled (resolve : Resolver) (server : ServerConfig) (s : S) (addr : SocketAddr)
      (t : S) : Type 0 where
    pub peer : Peer x.Key
    pub own : List IpAddrMask
    pub servers : List IpAddr
    pub peer_ok : build_peer x resolve server ≡ ok peer
    pub endpoint_ok : peer_endpoint x server peer ≡ ok addr
    pub own_ok : parse_addresses x server ≡ ok own
    pub servers_ok : parse_dns x server ≡ ok servers
    pub left : IsLeft server peer own servers (ops.read_interface_data s).0 s t

  drive : ServerConfig → Peer x.Key → List IpAddrMask → List IpAddr → SocketAddr → Exec S SocketAddr
  drive server peer own servers endpoint = do
    first ← attempt ops.read_interface_data
    configure x ops server peer first
    ops.configure_peer_routing (peer ∷ [])
    ops.sync_split_routes (split_route_prefixes x peer)
    again ← attempt ops.read_interface_data
    ops.apply_firewall own (known_fwmark again)
    apply_dns x ops servers
    pure endpoint

  -- The calls up to the second reading lead from state to state.
  opened :
      (peer : Peer x.Key) (first : Result (Host x.Key)) (cfg : InterfaceConfiguration x.Key)
      (s s1 s2 s3 s4 : S)
      → perform ops read s ≡ s1
      → replay ops (bring_up first cfg) s1 ≡ s2
      → perform ops (routing (peer ∷ [])) s2 ≡ s3
      → perform ops (split (split_route_prefixes x peer)) s3 ≡ s4
      → replay ops (opening x peer first cfg) s ≡ s4
  opened peer first cfg s s1 s2 s3 s4 e1 e2 e3 e4 =
      let end : List (Call x.Key) =
        routing (peer ∷ []) ∷ split (split_route_prefixes x peer) ∷ [] in
      replay-append ops (bring_up first cfg) end (perform ops read s)
      ∙ ap (λ u. replay ops end (replay ops (bring_up first cfg) u)) e1
      ∙ ap (replay ops end) e2
      ∙ ap (perform ops (split (split_route_prefixes x peer))) e3
      ∙ e4

  guarded :
      (calls : List (Call x.Key)) (own : List IpAddrMask) (m : Option ℕ) (s s4 s5 s6 : S)
      → replay ops calls s ≡ s4
      → perform ops read s4 ≡ s5
      → perform ops (firewall own m) s5 ≡ s6
      → replay ops (calls ++ (read ∷ firewall own m ∷ [])) s ≡ s6
  guarded calls own m s s4 s5 s6 e4 e5 e6 =
      replay-append ops calls (read ∷ firewall own m ∷ []) s
      ∙ ap (replay ops (read ∷ firewall own m ∷ [])) e4
      ∙ ap (perform ops (firewall own m)) e5
      ∙ e6

  drive-IsLeft :
      (server : ServerConfig) (peer : Peer x.Key) (own : List IpAddrMask) (servers : List IpAddr)
      (endpoint : SocketAddr) (s : S) {addr : SocketAddr} {t : S}
      → drive server peer own servers endpoint s ≡ (ok addr, t)
      → IsLeft server peer own servers (ops.read_interface_data s).0 s t × (endpoint ≡ addr)
  unfolding drive
  drive-IsLeft server peer own servers endpoint s {addr} {t} h =
      let (first, s1, e1, h1) = bind-eq-ok (attempt ops.read_interface_data) _ s h in
      let (_, s2, e2, h2) = bind-eq-ok (configure x ops server peer first) _ s1 h1 in
      let (_, s3, e3, h3) = bind-eq-ok (ops.configure_peer_routing (peer ∷ [])) _ s2 h2 in
      let (_, s4, e4, h4) =
        bind-eq-ok (ops.sync_split_routes (split_route_prefixes x peer)) _ s3 h3 in
      let (again, s5, e5, h5) = bind-eq-ok (attempt ops.read_interface_data) _ s4 h4 in
      let (_, s6, e6, h6) = bind-eq-ok (ops.apply_firewall own (known_fwmark again)) _ s5 h5 in
      let (_, s7, e7, h7) = bind-eq-ok (apply_dns x ops servers) _ s6 h6 in
      let was = attempt-eq-ok ops.read_interface_data s e1 in
      let told = attempt-eq-ok ops.read_interface_data s4 e5 in
      let c = configure-IsBrought x ops v system server peer first s1 e2 in
      let there =
        opened peer first c.cfg s s1 s2 s3 s4 (ran ops.read_interface_data s was) c.brought
          (ran (ops.configure_peer_routing (peer ∷ [])) s2 e3)
          (ran (ops.sync_split_routes (split_route_prefixes x peer)) s3 e4) in
      let before =
        guarded (opening x peer first c.cfg) own (known_fwmark again) s s4 s5 s6 there
          (ran ops.read_interface_data s4 told)
          (ran (ops.apply_firewall own (known_fwmark again)) s5 e6) in
      let g =
        guard-IsGuarded x ops v system own servers (known_fwmark again) s5 s6 t e6
          (subst (λ k. apply_dns x ops servers s6 ≡ (ok tt, k)) (pure-eq-ok endpoint s7 h7) e7) in
      let synced : interface s4 ≡ some (unmarked c.cfg) =
        system.interface_split _ s3 _ s4 e4
        ∙ system.interface_routing _ s2 _ s3 e3
        ∙ c.interface_is in
      let d : IsLeft server peer own servers first s t = record {
        cfg = c.cfg;
        cfg_ok = c.cfg_ok;
        interface_is = g.interface_as ∙ system.interface_read s4 again s5 told ∙ synced;
        routed_is = λ q.
            ap (λ (f : IpAddrMask → Bool). f q) (g.routed_as ∙ system.routed_read s4 again s5 told)
            ∙ system.syncs (split_route_prefixes x peer) s3 s4 e4 q;
        second = again;
        second_is =
            ap (λ u. (ops.read_interface_data u).0) there
            ∙ ap (λ (p : Result (Host x.Key) × S). p.0) told;
        filter_is = g.filter_is;
        mark_is = λ host read_ok.
            (system.reads (unmarked c.cfg) host s4 s5 synced
              (subst (λ r. ops.read_interface_data s4 ≡ (r, s5)) read_ok told)).fwmark
            ∙ sym (g.mark_as ∙ system.mark_read s4 again s5 told);
        resolver_is = subst (λ u. IsResolved x ops v system servers u t) (sym before) g.resolver_is;
      } in
      (
        subst (λ r. IsLeft server peer own servers r s t)
            (sym (ap (λ (p : Result (Host x.Key) × S). p.0) was)) d,
        pure-eq-ok_value endpoint s7 h7,
      )

  pub switch-IsSettled :
      (resolve : Resolver) (server : ServerConfig) (s : S) {addr : SocketAddr} {t : S}
      → switch x ops resolve server s ≡ (ok addr, t)
      → IsSettled resolve server s addr t
  unfolding switch drive
  switch-IsSettled resolve server s {addr} {t} h =
      let (peer, s1, e1, h1) = bind-eq-ok (lift (build_peer x resolve server)) _ s h in
      let (servers, s2, e2, h2) = bind-eq-ok (lift (parse_dns x server)) _ s1 h1 in
      let (own, s3, e3, h3) = bind-eq-ok (lift (parse_addresses x server)) _ s2 h2 in
      let (endpoint, s4, e4, h4) = bind-eq-ok (lift (peer_endpoint x server peer)) _ s3 h3 in
      let start : s4 ≡ s = sym (
        (lift-eq-ok _ s e1).1
        ∙ (lift-eq-ok _ s1 e2).1
        ∙ (lift-eq-ok _ s2 e3).1
        ∙ (lift-eq-ok _ s3 e4).1) in
      let (left, same) =
        drive-IsLeft server peer own servers endpoint s
          (subst (λ k. drive server peer own servers endpoint k ≡ (ok addr, t)) start h4) in
      record {
        peer = peer;
        own = own;
        servers = servers;
        peer_ok = (lift-eq-ok _ s e1).0;
        endpoint_ok = (lift-eq-ok _ s3 e4).0 ∙ ap ok same;
        own_ok = (lift-eq-ok _ s2 e3).0;
        servers_ok = (lift-eq-ok _ s1 e2).0;
        left = left;
      }
