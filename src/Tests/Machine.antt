-- ===== src/Tests/Machine.antt =====
-- A machine on which the kernel operations have their documented effect: its views are its fields.
-- A reading of an interface that is not there fails; the routing of a full tunnel gives a mark.
use wirefinder.Prelude.{ℕ, Option, none, some, List, [], ◌∷◌, ◌≡◌, refl, sym, ap, ◌∙◌}
use mathlib.Core.Path.{subst}
use wirefinder.Text.{Text, lit}
use wirefinder.Result.{Result, ok, err, to_option}
use wirefinder.External.{IpAddr, v4, IpAddrMask, InterfaceConfiguration, Host}
use wirefinder.Exec.{Exec}
use wirefinder.Wireguard.{Wireguard}
use wirefinder.Wireguard.Routes.{wants}
use wirefinder.Wireguard.Kernel.{WgOps, kernel_wireguard}
use wirefinder.Wireguard.Kernel.System.{Filter, Views, unmarked, IsReading, IsSystem, IsReadable}
use wirefinder.Daemon.State.{Daemon}
use wirefinder.Tests.World.{toy, configured}

pub record Machine : Type 0 where
  pub interface : Option (InterfaceConfiguration Text)
  pub mark : Option ℕ
  pub routes : List IpAddrMask
  pub filter : Option Filter
  pub resolver : List IpAddr

abbrev does : {A : Type 0} → A → (Machine → Machine) → Exec Machine A
does a f s = (ok a, f s)

abbrev host_of : Machine → InterfaceConfiguration Text → Host Text
host_of s cfg = record {
  listen_port = cfg.port;
  private_key = to_option (toy.parse_key cfg.prvkey);
  fwmark = s.mark;
  peers = cfg.peers;
}

abbrev reading : Machine → Option (InterfaceConfiguration Text) → Result (Host Text)
reading s none = err (lit "no interface")
reading s (some cfg) = ok (host_of s cfg)

unfoldable pub machine_ops : WgOps Text Machine
machine_ops = record {
  create_interface = does tt λ s. s;
  remove_interface = does tt λ s. record s { interface = none; mark = none; routes = [] };
  configure_interface =
      λ cfg. does tt λ s. record s { interface = some (unmarked cfg); mark = cfg.fwmark };
  configure_peer_routing = λ peers. does tt λ s. record s { mark = some 51820 };
  sync_split_routes = λ prefixes. does tt λ s. record s { routes = prefixes };
  apply_firewall =
      λ own mark. does tt λ s. record s { filter = some (record { own = own; mark = mark }) };
  clear_firewall = does tt λ s. record s { filter = none };
  configure_dns = λ dns domains. does tt λ s. record s { resolver = dns };
  reset_dns = does tt λ s. record s { resolver = [] };
  read_interface_data = λ s. (reading s s.interface, s);
}

abbrev pub machine_views : Views Text Machine
machine_views = record {
  interface = λ s. s.interface;
  mark = λ s. s.mark;
  routed = λ s q. wants s.routes q;
  filter = λ s. s.filter;
  resolver = λ s. s.resolver;
}

-- What a view says after a run.
seen {ℓ} :
    {A : Type 0} {B : Type ℓ} (view : Machine → B) (p : Result A × Machine) {r : Result A}
    {t : Machine}
    → p ≡ (r, t)
    → view t ≡ view p.1
seen {A} view p h = ap (λ (q : Result A × Machine). view q.1) (sym h)

machine-IsReading :
    (s : Machine) (cfg : InterfaceConfiguration Text)
    → IsReading toy machine_ops machine_views cfg s.mark (host_of s cfg)
machine-IsReading s cfg = record { private_key = refl; fwmark = refl; peers = refl }

pub machine-IsReadable : IsReadable toy machine_ops machine_views
unfolding machine_ops
machine-IsReadable cfg s there = (host_of s cfg, λ i. (reading s (there i), s))

ok-injective : {a b : Host Text} → ok a ≡ ok b → a ≡ b
ok-injective h = cc

told-IsReading :
    (cfg : InterfaceConfiguration Text) (host : Host Text) (s t : Machine)
    → s.interface ≡ some cfg
    → machine_ops.read_interface_data s ≡ (ok host, t)
    → IsReading toy machine_ops machine_views cfg s.mark host
unfolding machine_ops
told-IsReading cfg host s t there h =
    subst (IsReading toy machine_ops machine_views cfg s.mark)
      (ok-injective (ap (reading s) (sym there) ∙ ap (λ (p : Result (Host Text) × Machine). p.0) h))
      (machine-IsReading s cfg)

pub machine-IsSystem : IsSystem toy machine_ops machine_views
unfolding machine_ops
machine-IsSystem = record {
  configures = λ cfg s t h. seen (λ u. u.interface) _ h;
  syncs = λ prefixes s t h q. seen (λ u. wants u.routes q) _ h;
  filters = λ own m s t h. seen (λ u. u.filter) _ h;
  resolves = λ dns domains s t h. seen (λ u. u.resolver) _ h;
  resets = λ s t h. seen (λ u. u.resolver) _ h;
  removes = λ s t h. (seen (λ u. u.interface) _ h, λ q. seen (λ u. wants u.routes q) _ h);
  clears = λ s t h. seen (λ u. u.filter) _ h;
  reads = λ cfg host s t there h. told-IsReading cfg host s t there h;
  mark_read = λ s r t h. seen (λ u. u.mark) _ h;
  interface_read = λ s r t h. seen (λ u. u.interface) _ h;
  routed_read = λ s r t h. seen (λ u q. wants u.routes q) _ h;
  interface_routing = λ peers s r t h. seen (λ u. u.interface) _ h;
  interface_split = λ prefixes s r t h. seen (λ u. u.interface) _ h;
  interface_filter = λ own m s r t h. seen (λ u. u.interface) _ h;
  interface_clear = λ s r t h. seen (λ u. u.interface) _ h;
  interface_dns = λ dns domains s r t h. seen (λ u. u.interface) _ h;
  interface_reset = λ s r t h. seen (λ u. u.interface) _ h;
  mark_filter = λ own m s r t h. seen (λ u. u.mark) _ h;
  mark_dns = λ dns domains s r t h. seen (λ u. u.mark) _ h;
  mark_reset = λ s r t h. seen (λ u. u.mark) _ h;
  routed_filter = λ own m s r t h. seen (λ u q. wants u.routes q) _ h;
  routed_clear = λ s r t h. seen (λ u q. wants u.routes q) _ h;
  routed_dns = λ dns domains s r t h. seen (λ u q. wants u.routes q) _ h;
  routed_reset = λ s r t h. seen (λ u q. wants u.routes q) _ h;
  filter_dns = λ dns domains s r t h. seen (λ u. u.filter) _ h;
  filter_reset = λ s r t h. seen (λ u. u.filter) _ h;
}

-- A tunnel of other servers is up: its routes and its filter are there.
abbrev pub busy : Machine
busy = record {
  interface = none;
  mark = some 7;
  routes = record { address = v4 768; cidr = 24 } ∷ [];
  filter = some (record { own = []; mark = some 7 });
  resolver = v4 1 ∷ [];
}

abbrev pub machine_wg : Wireguard Machine
machine_wg = kernel_wireguard toy machine_ops

abbrev pub on_machine : Daemon Machine
on_machine = record {
  disk = configured.disk;
  cfg = configured.cfg;
  backend = busy;
  last_connect = none;
}
