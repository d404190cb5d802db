-- ===== src/Wireguard/Kernel/Order.antt =====
-- Leak-safety of daemon/src/wireguard.rs: which kernel operations a switch and a disconnect make, and
-- in what order.
use wirefinder.Prelude.{[], ◌∷◌, ◌≡◌, refl}
use wirefinder.Prelude.Lists.{All, All-append}
use wirefinder.External.{External, Resolver}
use wirefinder.Exec.{Exec, ◌>>=◌}
use wirefinder.Exec.Keeps.{Keeps, Keeps-step, kept}
use wirefinder.Config.{ServerConfig}
use wirefinder.Wireguard.Kernel.{WgOps, switch, disconnect}
use wirefinder.Wireguard.Kernel.Survival.{Survives, switch-Keeps}
use wirefinder.Wireguard.Kernel.Recording.{
  Call, create, remove, clear, reset, read, config, routing, split, firewall, dns, Logged, logging,
  recording,
}

-- The call leaves the interface and its packet filter in place.
abbrev pub Leaves : {Key : Type 0} → Call Key → Type 0
Leaves remove = ⊥
Leaves clear = ⊥
Leaves _ = Unit

module _ {Key S : Type 0} where
  logging-Keeps :
      {A : Type 0} (c : Call Key) (m : Exec S A)
      → Leaves c
      → Keeps (λ l. All Leaves l.calls) (logging c m)
  logging-Keeps c m safe = Keeps-step λ l h. All-append Leaves l.calls (c ∷ []) h (safe, tt)

  recording-Survives : (ops : WgOps Key S) → Survives (λ l. All Leaves l.calls) (recording ops)
  unfolding recording
  recording-Survives ops = record {
    create = logging-Keeps create ops.create_interface tt;
    config = λ c. logging-Keeps (config c) (ops.configure_interface c) tt;
    routing = λ ps. logging-Keeps (routing ps) (ops.configure_peer_routing ps) tt;
    split = λ prefixes. logging-Keeps (split prefixes) (ops.sync_split_routes prefixes) tt;
    firewall = λ own mark. logging-Keeps (firewall own mark) (ops.apply_firewall own mark) tt;
    set_dns = λ servers domains. logging-Keeps (dns servers) (ops.configure_dns servers domains) tt;
    unset_dns = logging-Keeps reset ops.reset_dns tt;
    read = logging-Keeps read ops.read_interface_data tt;
  }

-- A switch, whatever the backend answers and wherever it stops, neither removes the interface nor
-- clears the packet filter.
pub switch_never_removes :
    (x : External) {S : Type 0} (ops : WgOps x.Key S) (resolve : Resolver) (server : ServerConfig)
    (s : S)
    → All Leaves
        (switch x (recording ops) resolve server (record { backend = s; calls = [] })).1.calls
switch_never_removes x ops resolve server s =
    kept (switch-Keeps x (recording ops) (recording-Survives ops) resolve server)
      (record { backend = s; calls = [] }) tt

-- A disconnect removes the interface, then clears the packet filter whatever came of that, and
-- reports what came of the removal.
pub disconnect_order :
    (x : External) {S : Type 0} (ops : WgOps x.Key S) (s : S)
    → let l : Logged x.Key S = record { backend = s; calls = [] } in
      ((disconnect x (recording ops) l).1.calls ≡ remove ∷ clear ∷ [])
      × ((disconnect x (recording ops) l).0 ≡ (ops.remove_interface s).0)
unfolding disconnect ◌>>=◌ recording
disconnect_order x ops s = (refl, refl)
