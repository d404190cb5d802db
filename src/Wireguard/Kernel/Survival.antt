-- ===== src/Wireguard/Kernel/Survival.antt =====
-- Leak-safety of daemon/src/wireguard.rs: what survives a switch.
use wirefinder.Prelude.{ℕ, Option, List, [], ◌∷◌}
use wirefinder.Text.{Text}
use wirefinder.Result.{Result, ok, err}
use wirefinder.External.{External, IpAddr, IpAddrMask, Resolver, Peer, InterfaceConfiguration, Host}
use wirefinder.Exec.Keeps.{Keeps, Keeps-bind, Keeps-attempt, Keeps-pure, Keeps-lift}
use wirefinder.Config.{ServerConfig}
use wirefinder.Wireguard.Kernel.{WgOps, apply_dns, configure, switch}

-- A predicate on the backend that no operation but `remove_interface` and `clear_firewall` ends.
pub record Survives {Key S : Type 0} (P : S → Type 0) (ops : WgOps Key S) : Type 0 where
  pub create : Keeps P ops.create_interface
  pub config : (c : InterfaceConfiguration Key) → Keeps P (ops.configure_interface c)
  pub routing : (ps : List (Peer Key)) → Keeps P (ops.configure_peer_routing ps)
  pub split : (prefixes : List IpAddrMask) → Keeps P (ops.sync_split_routes prefixes)
  pub firewall : (own : List IpAddrMask) (mark : Option ℕ) → Keeps P (ops.apply_firewall own mark)
  pub set_dns : (dns : List IpAddr) (domains : List Text) → Keeps P (ops.configure_dns dns domains)
  pub unset_dns : Keeps P ops.reset_dns
  pub read : Keeps P ops.read_interface_data

module _ (x : External) {S : Type 0} (ops : WgOps x.Key S) {P : S → Type 0}
    (k : Survives P ops) where
  open k use {create, config, routing, split, firewall, set_dns, unset_dns, read}

  apply_dns-Keeps : (dns : List IpAddr) → Keeps P (apply_dns x ops dns)
  unfolding apply_dns
  apply_dns-Keeps [] = Keeps-bind (Keeps-attempt unset_dns) λ _. Keeps-pure tt
  apply_dns-Keeps (d ∷ ds) = set_dns (d ∷ ds) []

  configure-Keeps :
      (server : ServerConfig) (peer : Peer x.Key) (read : Result (Host x.Key))
      → Keeps P (configure x ops server peer read)
  unfolding configure
  configure-Keeps server peer (ok host) = Keeps-bind (Keeps-lift _) λ cfg. config cfg
  configure-Keeps server peer (err e) =
      Keeps-bind (Keeps-lift _)
        λ cfg. Keeps-bind (Keeps-attempt create) λ _. Keeps-bind (config cfg) λ _. Keeps-pure tt

  -- Whatever survives every operation but a removal survives a switch, on every path through it.
  pub switch-Keeps :
      (resolve : Resolver) (server : ServerConfig) → Keeps P (switch x ops resolve server)
  unfolding switch
  switch-Keeps resolve server = Keeps-bind (Keeps-lift _) λ peer. Keeps-bind (Keeps-lift _) λ dns.
      Keeps-bind (Keeps-lift _) λ addresses. Keeps-bind (Keeps-lift _) λ endpoint.
        Keeps-bind (Keeps-attempt read) λ host. Keeps-bind (configure-Keeps server peer host) λ _.
          Keeps-bind (routing (peer ∷ [])) λ _. Keeps-bind (split _) λ _.
            Keeps-bind (Keeps-attempt read) λ again.
              Keeps-bind (firewall addresses _)
                λ _. Keeps-bind (apply_dns-Keeps dns) λ _. Keeps-pure endpoint
