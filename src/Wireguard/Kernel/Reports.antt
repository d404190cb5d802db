-- ===== src/Wireguard/Kernel/Reports.antt =====
-- `disconnect` and `status` of daemon/src/wireguard.rs on a system whose operations have their
-- documented effect.
use wirefinder.Prelude.{
  ℕ, Option, some, List, [], ◌∷◌, ◌≡◌, refl, sym, ap, ◌∙◌, inl, inr, map, map_some,
}
use wirefinder.Text.{Text, trim}
use wirefinder.Result.{Result, ok, err, to_option, Result-cases}
use wirefinder.External.{External, SocketAddr, Resolver, Peer, InterfaceConfiguration}
use wirefinder.Exec.{◌>>=◌}
use wirefinder.Keys.{public_key}
use wirefinder.Config.{ServerConfig}
use wirefinder.Wireguard.{LiveInterface}
use wirefinder.Wireguard.Validate.{
  parse_named_key, parse_addresses, build_interface_config, interface_name,
}
use wirefinder.Wireguard.Kernel.{WgOps, live_peer, status, switch}
use wirefinder.Wireguard.Kernel.System.{unmarked, Views, IsSystem, IsReadable}
use wirefinder.Wireguard.Kernel.Settled.{IsSettled, switch-IsSettled}

-- The interface speaks for the server: its own key is the one of the server's private key.
pub record Speaks (x : External) (server : ServerConfig) (live : LiveInterface) : Type 0 where
  pub key : Text
  pub derived : public_key x server.private_key ≡ ok key
  pub own : live.public_key ≡ some key

abbrev prvkey_or : {Key : Type 0} → Text → Result (InterfaceConfiguration Key) → Text
prvkey_or t (ok cfg) = cfg.prvkey
prvkey_or t (err e) = t

abbrev peers_or :
    {Key : Type 0} → List (Peer Key) → Result (InterfaceConfiguration Key) → List (Peer Key)
peers_or ps (ok cfg) = cfg.peers
peers_or ps (err e) = ps

-- What a configuration that was built says of the server's private key and of the peers.
build_interface_config_parts :
    (x : External) (server : ServerConfig) (peers : List (Peer x.Key)) (m : Option ℕ)
    {cfg : InterfaceConfiguration x.Key}
    → build_interface_config x server peers m ≡ ok cfg
    → (key : x.Key) × (x.parse_key (trim server.private_key) ≡ ok key)
      × (cfg.prvkey ≡ trim server.private_key)
      × (cfg.peers ≡ peers)
unfolding build_interface_config parse_named_key
build_interface_config_parts x server peers m {cfg} h =
    elim (Result-cases (x.parse_key (trim server.private_key))) [
      | inl (key, e) ↦ elim (Result-cases (parse_addresses x server)) [
        | inl (own, f) ↦
            let built = rw (e, f) at h in
            (
              key,
              e,
              sym (ap (prvkey_or (trim server.private_key)) built),
              sym (ap (peers_or peers) built),
            )
        | inr (t, f) ↦ absurd (cc (rw (e, f) at h))
      ]
      | inr (t, e) ↦ absurd (cc (rw e at h))
    ]

module _ (x : External) {S : Type 0} (ops : WgOps x.Key S) (v : Views x.Key S)
    (system : IsSystem x ops v) where
  open v use {interface, mark, routed, filter}

  settled-Speaks :
      IsReadable x ops v
      → (resolve : Resolver) (server : ServerConfig) (s : S) (addr : SocketAddr) (t : S)
      → IsSettled x ops v system resolve server s addr t
      → (live : LiveInterface) × (status x ops t ≡ (ok live, t)) × Speaks x server live
  unfolding status public_key ◌>>=◌
  settled-Speaks readable resolve server s addr t d =
      let set = d.left.cfg in
      let (key, parsed, private, peers) =
        build_interface_config_parts x server (d.peer ∷ []) _ d.left.cfg_ok in
      let (host, e) = readable (unmarked set) t d.left.interface_is in
      let told = system.reads (unmarked set) host t t d.left.interface_is e in
      let own : host.private_key ≡ some key =
        told.private_key ∙ ap (λ k. to_option (x.parse_key k)) private ∙ ap to_option parsed in
      (
        record {
          name = interface_name;
          public_key = map_some (λ k. x.show_key (x.public_key k)) host.private_key;
          listen_port = host.listen_port;
          peers = map (live_peer x ops) host.peers;
        },
        rw e refl,
        record {
          key = x.show_key (x.public_key key);
          derived = rw parsed refl;
          own = ap (map_some (λ k. x.show_key (x.public_key k))) own;
        },
      )

  pub switch-Speaks :
      IsReadable x ops v
      → (resolve : Resolver) (server : ServerConfig) (s : S) {addr : SocketAddr} {t : S}
      → switch x ops resolve server s ≡ (ok addr, t)
      → (live : LiveInterface) × (status x ops t ≡ (ok live, t)) × Speaks x server live
  switch-Speaks readable resolve server s {addr} {t} h =
      settled-Speaks readable resolve server s addr t
        (switch-IsSettled x ops v system resolve server s h)
