-- ===== src/Tests/Promises.antt =====
-- What a switch and a disconnect leave of a machine, and the single active flag, at concrete inputs.
use wirefinder.Prelude.{Bool, [], List, true, some, ◌∷◌, ◌≡◌, refl, ap, arith, ℕ, false, ◌≢◌}
use wirefinder.Prelude.Lists.{any, All}
use wirefinder.Text.{Text, lit, equal, trim, split_once, parse_unsigned, show_ℕ}
use wirefinder.Result.{Result, ok, traverse}
use wirefinder.External.{SocketAddr, v4}
use wirefinder.Exec.{pure, lift, attempt, raise, ◌>>=◌}
use wirefinder.Keys.{public_key}
use wirefinder.Config.{named, find_server}
use wirefinder.Wireguard.Validate.{
  from_lookup, resolve_endpoint, or_cached, endpoint_addr, parse_address, parse_addresses,
  parse_allowed_ip, parse_dns_entry, parse_dns, parse_named_key, parse_preshared, build_peer,
  peer_endpoint, validate_server, build_interface_config,
}
use wirefinder.Wireguard.Sound.{IsSound}
use wirefinder.Wireguard.Routes.{split_route_prefixes, network_prefix, masked}
use wirefinder.Wireguard.Kernel.{switch, disconnect, configure, bring_up_with, apply_dns}
use wirefinder.Daemon.State.{on_backend, get_cfg, set_cfg, set_last_connect, persist}
use wirefinder.Daemon.Handle.{switch_server, refresh, save_cache, is_outdated}
use wirefinder.Daemon.Invariant.{IsConfigured}
use wirefinder.Daemon.Status.{list_servers}
use wirefinder.Proto.{Request, Response}
use wirefinder.Wireguard.Kernel.Success.{IsWilling}
use wirefinder.Daemon.Handle.{handle}
use wirefinder.Daemon.Liveness.{handle-switched}
use wirefinder.Exec.{Exec}
use wirefinder.Exec.Keeps.{Keeps-step}
use wirefinder.Ui.Tray.{
  App, Event, second_launch, menu, click, other, left, up, on_events, on_event, on_menu, show_main,
  raise_window,
}
use wirefinder.Ui.Tray.Events.{IsRunning, is_quit, on_events_running}
use wirefinder.Daemon.Active.{HasOwnKey}
use wirefinder.Daemon.Single.{kernel_wireguard-Announces, switch_server-Flags}
use wirefinder.Tests.World.{
  toy, toy_codec, state_path, at_noon, later, no_network, home, work, two_servers,
}
use wirefinder.Tests.Machine.{
  Machine, machine_ops, machine_views, machine-IsSystem, machine-IsReadable, machine_wg, busy,
  on_machine,
}

abbrev home_addr : SocketAddr
home_addr = record { ip = v4 9; port = 51820 }

abbrev torn_down : Machine
torn_down = (disconnect toy machine_ops busy).1

home-IsSound : IsSound toy home
unfolding lit equal trim split_once parse_unsigned parse_address parse_addresses parse_allowed_ip
    parse_dns_entry parse_dns parse_named_key parse_preshared traverse
home-IsSound = record {
  private_ok = refl;
  public_ok = refl;
  allowed_ok = refl;
  preshared_ok = refl;
  dns_ok = refl;
  addresses_ok = refl;
}

work-IsSound : IsSound toy work
unfolding lit equal trim split_once parse_unsigned parse_address parse_addresses parse_allowed_ip
    parse_dns_entry parse_dns parse_named_key parse_preshared traverse
work-IsSound = record {
  private_ok = refl;
  public_ok = refl;
  allowed_ok = refl;
  preshared_ok = refl;
  dns_ok = refl;
  addresses_ok = refl;
}

two_servers-IsConfigured : IsConfigured toy two_servers
unfolding lit equal trim named
two_servers-IsConfigured = record {
  unique = (refl, (refl, tt));
  sound = (home-IsSound, (work-IsSound, tt));
  names = (
    record { not_blank = refl; trimmed = refl },
    (record { not_blank = refl; trimmed = refl }, tt),
  );
}

-- The second byte, where the two keys differ.
abbrev second : Result Text → ℕ
second (ok (c ∷ d ∷ cs)) = d
second r = 0

keys_differ : public_key toy work.private_key ≢ public_key toy home.private_key
unfolding public_key lit trim
keys_differ h = omega (arith, ap second h)

home-HasOwnKey : HasOwnKey toy home two_servers.servers
home-HasOwnKey = (λ h. refl, (λ h. absurd (keys_differ h), tt))

home_there : find_server two_servers (lit "home") ≡ some home
unfolding find_server named lit equal
home_there = refl

home_switches :
    (switch_server toy toy_codec state_path machine_wg at_noon (lit "home") on_machine).0 ≡ ok tt
unfolding machine_ops lit equal trim split_once parse_unsigned show_ℕ from_lookup resolve_endpoint
    or_cached endpoint_addr parse_address parse_addresses parse_allowed_ip parse_dns_entry parse_dns
    parse_named_key parse_preshared build_peer peer_endpoint validate_server traverse pure lift
    attempt raise ◌>>=◌ switch configure bring_up_with apply_dns build_interface_config
    split_route_prefixes network_prefix masked switch_server find_server named on_backend get_cfg
    set_cfg set_last_connect refresh save_cache is_outdated persist
home_switches = refl

switch_server-Flags_example :
    let infos =
      (list_servers toy machine_wg later
        (switch_server toy toy_codec state_path machine_wg at_noon (lit "home") on_machine).1).0 in
    All (λ i. i.active ≡ equal i.name (lit "home")) infos × (any (λ i. i.active) infos ≡ true)
switch_server-Flags_example =
    switch_server-Flags toy toy_codec state_path machine_wg at_noon later (lit "home") on_machine
      home
      (kernel_wireguard-Announces toy machine_ops machine_views machine-IsSystem machine-IsReadable)
      two_servers-IsConfigured home_there home-HasOwnKey home_switches

machine-IsWilling : IsWilling machine_ops
unfolding machine_ops
machine-IsWilling = record {
  config = λ c. record { at = λ s. refl };
  routing = λ ps. record { at = λ s. refl };
  split = λ prefixes. record { at = λ s. refl };
  firewall = λ own mark. record { at = λ s. refl };
  set_dns = λ dns domains. record { at = λ s. refl };
}

home_resolves : endpoint_addr toy no_network home ≡ ok home_addr
unfolding lit equal trim split_once parse_unsigned show_ℕ from_lookup resolve_endpoint or_cached
    endpoint_addr
home_resolves = refl

handle-switched_example :
    (handle toy toy_codec state_path machine_wg at_noon
      (Request.switch_server (lit "home"))
      on_machine).0
    ≡ Response.switched (lit "home")
handle-switched_example =
    handle-switched toy toy_codec state_path machine_ops at_noon (lit "home") on_machine home
      home_addr machine-IsWilling two_servers-IsConfigured home_there home_resolves

-- A program that only knows whether it runs.
abbrev runs_on : {A : Type 0} → A → Exec Bool A
runs_on a s = (ok a, s)

abbrev small_app : App Bool
small_app = record {
  has_tray = λ label s. true;
  has_window = λ label s. true;
  set_tooltip = λ label summary. runs_on tt;
  set_header = λ summary. runs_on tt;
  unminimize = λ label. runs_on tt;
  show = λ label. runs_on tt;
  set_focus = λ label. runs_on tt;
  exit = λ code s. false;
}

small_app-IsRunning : IsRunning small_app (λ s. s ≡ true)
small_app-IsRunning = record {
  unminimize = λ label. Keeps-step λ s h. h;
  show = λ label. Keeps-step λ s h. h;
  set_focus = λ label. Keeps-step λ s h. h;
}

abbrev visits : List Event
visits = second_launch ∷ menu (lit "show") ∷ click left up ∷ other ∷ []

no_quit : any is_quit visits ≡ false
unfolding lit equal
no_quit = refl

on_events_running_example : on_events small_app visits true ≡ true
on_events_running_example =
    on_events_running small_app (λ s. s ≡ true) small_app-IsRunning visits true no_quit refl

-- The menu can be left by its last item, and only by it.
quits : on_events small_app (menu (lit "show") ∷ menu (lit "quit") ∷ []) true ≡ false
unfolding lit equal on_events on_event on_menu show_main raise_window ◌>>=◌ attempt pure
quits = refl
