-- ===== src/Wireguard/Kernel/System.antt =====
-- What the kernel operations of daemon/src/wireguard.rs (`WgOps`) are documented to do, on views of
-- the system: the interface, its split routes, the packet filter and the resolver.
use wirefinder.Prelude.{ℕ, Bool, false, Option, none, some, List, [], ◌≡◌, map}
use wirefinder.Text.{Text}
use wirefinder.Result.{Result, ok, to_option}
use wirefinder.External.{External, IpAddr, IpAddrMask, Peer, InterfaceConfiguration, Host}
use wirefinder.Exec.{Exec}
use wirefinder.Wireguard.Routes.{wants}
use wirefinder.Wireguard.Kernel.{WgOps}

-- The packet filter guards these addresses, and the marked connections if there is a mark.
pub record Filter : Type 0 where
  pub own : List IpAddrMask
  pub mark : Option ℕ

-- The routing of a peer may give the interface a mark, so the mark is a view of its own and the one of
-- the configuration is left out.
abbrev pub unmarked : {Key : Type 0} → InterfaceConfiguration Key → InterfaceConfiguration Key
unmarked cfg = record cfg { fwmark = none }

pub record Views (Key S : Type 0) : Type 0 where
  -- the configuration of the interface, if there is one, without its mark
  pub interface : S → Option (InterfaceConfiguration Key)
  pub mark : S → Option ℕ
  pub routed : S → IpAddrMask → Bool
  pub filter : S → Option Filter
  -- the resolver's addresses, none for the system's own
  pub resolver : S → List IpAddr

-- However the action ends, the view is as it was.
abbrev pub Spares : {S A B : Type 0} → (S → B) → Exec S A → Type 0
Spares {S} {A} view m = (s : S) (r : Result A) (t : S) → m s ≡ (r, t) → view t ≡ view s

module _ (x : External) {S : Type 0} (ops : WgOps x.Key S) (v : Views x.Key S) where
  open v use {interface, mark, routed, filter, resolver}

  -- What a reading tells of a configured interface.
  pub record IsReading (cfg : InterfaceConfiguration x.Key) (m : Option ℕ) (host : Host x.Key)
      : Type 0 where
    pub private_key : host.private_key ≡ to_option (x.parse_key cfg.prvkey)
    pub fwmark : host.fwmark ≡ m
    pub peers :
        map (λ (p : Peer x.Key). p.public_key) host.peers
        ≡ map (λ (p : Peer x.Key). p.public_key) cfg.peers

  -- The effect of each operation on its own view where it succeeds, and the views that it leaves
  -- alone however it ends.
  pub record IsSystem : Type 0 where
    pub configures :
        (cfg : InterfaceConfiguration x.Key) (s t : S)
        → ops.configure_interface cfg s ≡ (ok tt, t)
        → interface t ≡ some (unmarked cfg)
    pub syncs :
        (prefixes : List IpAddrMask) (s t : S)
        → ops.sync_split_routes prefixes s ≡ (ok tt, t)
        → (q : IpAddrMask) → routed t q ≡ wants prefixes q
    pub filters :
        (own : List IpAddrMask) (m : Option ℕ) (s t : S)
        → ops.apply_firewall own m s ≡ (ok tt, t)
        → filter t ≡ some (record { own = own; mark = m })
    pub resolves :
        (dns : List IpAddr) (domains : List Text) (s t : S)
        → ops.configure_dns dns domains s ≡ (ok tt, t)
        → resolver t ≡ dns
    pub resets : (s t : S) → ops.reset_dns s ≡ (ok tt, t) → resolver t ≡ []
    pub removes :
        (s t : S)
        → ops.remove_interface s ≡ (ok tt, t)
        → (interface t ≡ none) × ((q : IpAddrMask) → routed t q ≡ false)
    pub clears : (s t : S) → ops.clear_firewall s ≡ (ok tt, t) → filter t ≡ none
    -- A reading may fail; where it succeeds it tells what is there.
    pub reads :
        (cfg : InterfaceConfiguration x.Key) (host : Host x.Key) (s t : S)
        → interface s ≡ some cfg
        → ops.read_interface_data s ≡ (ok host, t)
        → IsReading cfg (mark s) host
    pub mark_read : Spares mark ops.read_interface_data
    pub interface_read : Spares interface ops.read_interface_data
    pub routed_read : Spares routed ops.read_interface_data
    pub interface_routing :
        (peers : List (Peer x.Key)) → Spares interface (ops.configure_peer_routing peers)
    pub interface_split :
        (prefixes : List IpAddrMask) → Spares interface (ops.sync_split_routes prefixes)
    pub interface_filter :
        (own : List IpAddrMask) (m : Option ℕ) → Spares interface (ops.apply_firewall own m)
    pub interface_clear : Spares interface ops.clear_firewall
    pub interface_dns :
        (dns : List IpAddr) (domains : List Text) → Spares interface (ops.configure_dns dns domains)
    pub interface_reset : Spares interface ops.reset_dns
    pub mark_filter :
        (own : List IpAddrMask) (m : Option ℕ) → Spares mark (ops.apply_firewall own m)
    pub mark_dns :
        (dns : List IpAddr) (domains : List Text) → Spares mark (ops.configure_dns dns domains)
    pub mark_reset : Spares mark ops.reset_dns
    pub routed_filter :
        (own : List IpAddrMask) (m : Option ℕ) → Spares routed (ops.apply_firewall own m)
    pub routed_clear : Spares routed ops.clear_firewall
    pub routed_dns :
        (dns : List IpAddr) (domains : List Text) → Spares routed (ops.configure_dns dns domains)
    pub routed_reset : Spares routed ops.reset_dns
    pub filter_dns :
        (dns : List IpAddr) (domains : List Text) → Spares filter (ops.configure_dns dns domains)
    pub filter_reset : Spares filter ops.reset_dns

  -- A configured interface can be read, and the reading changes nothing.
  abbrev pub IsReadable : Type 0
  IsReadable =
      (cfg : InterfaceConfiguration x.Key) (s : S)
      → interface s ≡ some cfg
      → (host : Host x.Key) × (ops.read_interface_data s ≡ (ok host, s))
