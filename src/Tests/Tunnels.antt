-- ===== src/Tests/Tunnels.antt =====
-- The properties of the backend and of the tunnel's requests at concrete inputs.
use wirefinder.Proto.{alive, connecting, stale, never}
use wirefinder.Prelude.{
  ℕ, ltb, if◌then◌else◌, Bool, List, ◌≡◌, ◌+◌, ◌*◌, ◌^◌, ◌||◌, refl, none, some, [], ◌∷◌, false,
  true,
}
use wirefinder.Prelude.Lists.{All}
use wirefinder.Text.{
  Text, lit, equal, trim, split_once, parse_unsigned, show_ℕ, split, strip_suffix, lines,
}
use wirefinder.Result.{ok, traverse}
use wirefinder.External.{v4, v6, IpAddrMask}
use wirefinder.Exec.{Exec, pure, lift, attempt, raise, ◌>>=◌}
use wirefinder.Exec.Keeps.{Keeps-step, Keeps, Keeps-pure}
use wirefinder.Config.{named, find_server, replace_first, upsert_server}
use wirefinder.Config.Store.{save, naming, write_private, directory, create_parent, sync_parent}
use wirefinder.Config.Store.Fs.{
  rsplit_dot, stem_of, file_stem, with_extension, shown, put, next_fault, call, outcome, settle,
  touch, opened, open_truncate, take, append_to, write_all, rename,
}
use wirefinder.Wireguard.Validate.{
  from_lookup, resolve_endpoint, or_cached, endpoint_addr, parse_address, parse_addresses,
  parse_allowed_ip, parse_dns_entry, parse_dns, parse_named_key, parse_preshared, build_peer,
  peer_endpoint, validate_server, build_interface_config,
}
use wirefinder.Wireguard.Sound.{IsSound, validate_server-IsSound, validate_server-eq-endpoint}
use wirefinder.Wireguard.Routes.{
  wants, install, prune, stale_routes, mask_equal, ip_equal, sync_split_routes,
  split_route_prefixes, network_prefix, masked,
}
use wirefinder.Wireguard.Pruning.{sync_split_routes-Keeps}
use wirefinder.Wireguard.Guards.{IsWithin, drop_rule, nft_script-IsWithin}
use wirefinder.Wireguard.Firewall.{nft_script}
use wirefinder.Wireguard.Resolvconf.{
  System, order_path, which, first_existing, join_path, resolvconf_ifname, interface_order_prefix,
  is_prefix,
}
use wirefinder.Wireguard.Kernel.{switch, configure, bring_up_with, apply_dns}
use wirefinder.Wireguard.Kernel
use wirefinder.Wireguard.Kernel.Recording.{Logged, remove, clear, recording}
use wirefinder.Wireguard.Kernel.Order.{Leaves, switch_never_removes, disconnect_order}
use wirefinder.Wireguard.Kernel.Plan.{IsPlan, switch-IsPlan}
use wirefinder.Daemon.State.{
  derive_state, is_connecting, on_backend, get_cfg, set_cfg, set_last_connect, persist,
}
use wirefinder.Daemon.Handle.{switch_server, refresh, save_cache, is_outdated, cache_endpoint}
use wirefinder.Daemon.Tunnel.{switch_server_window}
use wirefinder.Tests.World.{
  toy, toy_codec, state_path, toy_ops, toy_wg, at_noon, later, configured, home, no_network, Up,
}

home_validates : validate_server toy no_network home ≡ ok (record { ip = v4 9; port = 51820 })
unfolding lit equal trim split_once parse_unsigned show_ℕ from_lookup resolve_endpoint or_cached
    endpoint_addr parse_address parse_addresses parse_allowed_ip parse_dns_entry parse_dns
    parse_named_key parse_preshared build_peer peer_endpoint validate_server traverse
home_validates = refl

validate_server-IsSound_example :
    IsSound toy home × (endpoint_addr toy no_network home ≡ ok (record { ip = v4 9; port = 51820 }))
validate_server-IsSound_example = validate_server-IsSound toy no_network home home_validates

home-IsSound : IsSound toy home
unfolding lit equal trim split_once parse_unsigned show_ℕ from_lookup resolve_endpoint or_cached
    endpoint_addr parse_address parse_addresses parse_allowed_ip parse_dns_entry parse_dns
    parse_named_key parse_preshared build_peer peer_endpoint validate_server traverse
home-IsSound = record {
  private_ok = refl;
  public_ok = refl;
  allowed_ok = refl;
  preshared_ok = refl;
  dns_ok = refl;
  addresses_ok = refl;
}

validate_server-eq-endpoint_example :
    validate_server toy no_network home ≡ endpoint_addr toy no_network home
validate_server-eq-endpoint_example = validate_server-eq-endpoint toy no_network home home-IsSound

abbrev start : Up → Logged Text Up
start up = record { backend = up; calls = [] }

switches_cold : switch toy (recording toy_ops) no_network home (start none) ≡ (
  ok (record { ip = v4 9; port = 51820 }),
  (switch toy (recording toy_ops) no_network home (start none)).1,
)
unfolding recording toy_ops lit equal trim split_once parse_unsigned show_ℕ from_lookup
    resolve_endpoint or_cached endpoint_addr parse_address parse_addresses parse_allowed_ip
    parse_dns_entry parse_dns parse_named_key parse_preshared build_peer peer_endpoint
    validate_server traverse pure lift attempt raise ◌>>=◌ switch configure bring_up_with apply_dns
    build_interface_config split_route_prefixes network_prefix masked
switches_cold = refl

switch-IsPlan_example :
    IsPlan toy toy_ops no_network home none
      (switch toy (recording toy_ops) no_network home (start none)).1.calls
switch-IsPlan_example = switch-IsPlan toy toy_ops no_network home none switches_cold

switch_never_removes_example :
    All Leaves (switch toy (recording toy_ops) no_network home (start (some 51820))).1.calls
switch_never_removes_example = switch_never_removes toy toy_ops no_network home (some 51820)

disconnect_order_example :
    let l : Logged Text Up = record { backend = some 51820; calls = [] } in
    ((Kernel.disconnect toy (recording toy_ops) l).1.calls ≡ remove ∷ clear ∷ [])
    × ((Kernel.disconnect toy (recording toy_ops) l).0 ≡ (toy_ops.remove_interface (some 51820)).0)
disconnect_order_example = disconnect_order toy toy_ops (some 51820)

switches : (switch_server toy toy_codec state_path toy_wg at_noon (lit "home") configured).0 ≡ ok tt
unfolding switch_server refresh save_cache is_outdated cache_endpoint set_last_connect toy_ops lit
    equal trim split_once parse_unsigned show_ℕ from_lookup resolve_endpoint or_cached endpoint_addr
    parse_address parse_addresses parse_allowed_ip parse_dns_entry parse_dns parse_named_key
    parse_preshared build_peer peer_endpoint validate_server traverse pure lift attempt raise ◌>>=◌
    naming write_private directory create_parent sync_parent save rsplit_dot stem_of file_stem
    with_extension shown put next_fault call outcome settle touch opened open_truncate take
    append_to write_all rename named find_server replace_first upsert_server on_backend get_cfg
    set_cfg persist switch configure bring_up_with apply_dns build_interface_config
    split_route_prefixes network_prefix masked
switches = refl

switch_server_window_example :
    let window =
      is_connecting later
        (switch_server toy toy_codec state_path toy_wg at_noon (lit "home") configured).1 in
    (derive_state none window
      ≡ (if ltb later.instant (at_noon.instant + 15 * 10 ^ 9) then connecting else never))
    × ((age : ℕ) → derive_state (some age) window ≡ (if ltb age 180 then alive else stale))
switch_server_window_example =
    switch_server_window toy toy_codec state_path toy_wg at_noon later (lit "home") configured
      switches

home_there : find_server configured.cfg (lit "home") ≡ some home
unfolding find_server named lit equal
home_there = refl

home_moves : (toy_wg.switch no_network home none).0 ≡ ok (record { ip = v4 9; port = 51820 })
unfolding toy_ops lit equal trim split_once parse_unsigned show_ℕ from_lookup resolve_endpoint
    or_cached endpoint_addr parse_address parse_addresses parse_allowed_ip parse_dns_entry parse_dns
    parse_named_key parse_preshared build_peer peer_endpoint validate_server traverse pure lift
    attempt raise ◌>>=◌ switch configure bring_up_with apply_dns build_interface_config
    split_route_prefixes network_prefix masked
home_moves = refl

abbrev lan : IpAddrMask
lan = record { address = v4 513; cidr = 24 }

-- Whether the route of `lan` is there, and which routes were taken away.
record Seen : Type 0 where
  lan_up : Bool
  deleted : List IpAddrMask

abbrev deletes_route : IpAddrMask → Bool → Seen → Seen
deletes_route p true s = record s { lan_up = false }
deletes_route p false s = record s { deleted = p ∷ s.deleted }

abbrev acts : Bool → IpAddrMask → Seen → Seen
acts true p s = deletes_route p (mask_equal lan p) s
acts false p s = record s { lan_up = mask_equal lan p || s.lan_up }

abbrev ip_seen : Text → IpAddrMask → Exec Seen (Unit {0})
ip_seen action p s = (ok tt, acts (equal action (lit "del")) p s)

abbrev old_route : IpAddrMask
old_route = record { address = v4 1025; cidr = 24 }

replace-Keeps : (p : IpAddrMask) → Keeps (λ (s : Seen). s.lan_up ≡ true) (ip_seen (lit "replace") p)
unfolding equal lit
replace-Keeps p = Keeps-step λ s up. rw up (or_true (mask_equal lan p))
  where
    or_true : (b : Bool) → b || true ≡ true
    or_true true = refl
    or_true false = refl

del-Keeps :
    (p : IpAddrMask)
    → wants (lan ∷ []) p ≡ false
    → Keeps (λ (s : Seen). s.lan_up ≡ true) (ip_seen (lit "del") p)
unfolding equal lit
del-Keeps p free = Keeps-step λ s up. kept_up (mask_equal lan p) free s up
  where
    kept_up :
        (b : Bool)
        → b || false ≡ false
        → (s : Seen) → s.lan_up ≡ true
        → (deletes_route p b s).lan_up ≡ true
    kept_up true h s up = absurd (cc h)
    kept_up false h s up = up

-- The old route is taken away, and that of `lan` is not.
prunes :
    (sync_split_routes ip_seen
      (pure (lan ∷ old_route ∷ []))
      (lan ∷ [])
      (record { lan_up = false; deleted = [] })).1
    ≡ record { lan_up = true; deleted = old_route ∷ [] }
unfolding sync_split_routes install prune stale_routes mask_equal ip_equal equal lit pure attempt
    ◌>>=◌
prunes = refl

sync_split_routes-Keeps_example :
    Keeps
      (λ (s : Seen). s.lan_up ≡ true)
      (sync_split_routes ip_seen (pure (lan ∷ old_route ∷ [])) (lan ∷ []))
sync_split_routes-Keeps_example =
    sync_split_routes-Keeps ip_seen (pure (lan ∷ old_route ∷ [])) (lan ∷ []) replace-Keeps del-Keeps
      (Keeps-pure (lan ∷ old_route ∷ []))

abbrev lan6 : IpAddrMask
lan6 = record { address = v6 2; cidr = 64 }

nft_script-IsWithin_example :
    All
      (λ a.
        IsWithin
          (drop_rule toy (lit "wg0") a.address)
          (nft_script toy (lit "wg0") (lan ∷ lan6 ∷ []) (some 5)))
      (lan ∷ lan6 ∷ [])
nft_script-IsWithin_example = nft_script-IsWithin toy (lit "wg0") (lan ∷ lan6 ∷ []) (some 5)

-- A real binary, which is not in the first directory of PATH, and an interface-order file.
abbrev openresolv : System
openresolv = record {
  path = some (lit "/sbin:/usr/bin/");
  exists = λ p. equal p order_path || equal p (lit "/usr/bin/resolvconf");
  is_symlink = λ p. ok false;
  read = λ p. ok (lit "lo*\ntun*\n");
}

openresolv_name :
    (which openresolv (lit "resolvconf") ≡ some (lit "/usr/bin/resolvconf"))
    × (resolvconf_ifname openresolv (lit "wg0") ≡ lit "lo.wg0")
unfolding which first_existing join_path split equal resolvconf_ifname interface_order_prefix lines
    trim strip_suffix lit is_prefix
openresolv_name = (refl, refl)

vpn_first : interface_order_prefix (lit "lo*\ntun*\n") ≡ some (lit "lo")
unfolding interface_order_prefix lines trim strip_suffix lit is_prefix
vpn_first = refl
