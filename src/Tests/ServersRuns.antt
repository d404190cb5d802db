-- ===== src/Tests/ServersRuns.antt =====
-- The tests of daemon/src/daemon.rs for the requests that add, list, show and remove servers, by name.
use wirefinder.Prelude.{Bool, true, not, ◌&&◌, ◌==◌, ◌≡◌, refl, none, some, List, [], ◌∷◌}
use wirefinder.Prelude.Lists.{any, is_empty, length}
use wirefinder.Text.{
  lit, equal, trim, trim_start, trim_end, is_whitespace, split, split_once, parse_unsigned, show_ℕ,
  contains, starts_with, to_ascii_lowercase,
}
use wirefinder.Result.{traverse}
use wirefinder.Exec.{pure, lift, attempt, raise, ◌>>=◌}
use wirefinder.Keys.{public_key}
use wirefinder.Proto.{Request, ServerInfo, matches}
use wirefinder.Config.{ServerConfig, named, find_server, replace_first, upsert_server, info, detail}
use wirefinder.Config
use wirefinder.Config.Store.{save, naming, write_private, directory, create_parent, sync_parent}
use wirefinder.Config.Store.Fs.{
  rsplit_dot, stem_of, file_stem, with_extension, shown, put, next_fault, call, outcome, settle,
  touch, opened, open_truncate, take, append_to, write_all, rename,
}
use wirefinder.Wireguard.Validate.{
  from_lookup, resolve_endpoint, or_cached, endpoint_addr, parse_address, parse_addresses,
  parse_allowed_ip, parse_dns_entry, parse_dns, parse_named_key, parse_preshared, build_peer,
  peer_endpoint, validate_server,
}
use wirefinder.Daemon.State.{
  Daemon, on_backend, get_cfg, set_cfg, persist, set_last_connect, is_connecting, handshake_age,
  derive_state,
}
use wirefinder.Daemon.Servers.{
  server_of, edited, commit, spec_of, add_server, import_server, remove_server, edit_server,
  get_server, active_public_key,
}
use wirefinder.Daemon.Status.{listed, list_one, peer_age, list_servers, status_of, read_status}
use wirefinder.Daemon.Handle.{
  cache_endpoint, is_outdated, save_cache, refresh, switch_server, disconnect, handle,
}
use wirefinder.Tests.Assert.{all, same_number}
use wirefinder.Tests.Sample.{sample, peer_key}
use wirefinder.Tests.FakeWireguard.{
  FakeWireguard, fake, server, fresh_daemon, now, ask, tell, onboarded, error_has, listing,
  detailing, first, of_some, entry_of, servers_hold, other_key, same_result,
}

-- `d.cfg.servers[0]` changed in place
abbrev on_first : (ServerConfig → ServerConfig) → List ServerConfig → List ServerConfig
on_first f [] = []
on_first f (s ∷ ss) = f s ∷ ss

abbrev set_stored : (ServerConfig → ServerConfig) → Daemon FakeWireguard → Daemon FakeWireguard
set_stored f d = record d { cfg = record { servers = on_first f d.cfg.servers } }

abbrev a_fresh_daemon_has_no_servers : Bool
a_fresh_daemon_has_no_servers = servers_hold is_empty fresh_daemon

abbrev list_servers_filters_by_query_daemon_side : Bool
list_servers_filters_by_query_daemon_side =
    let d =
      tell now
        (Request.add_server
          (record (server (lit "proton-ch")) { addresses = lit "10.20.0.2/32" ∷ [] }))
        (tell now
          (Request.add_server
            (record (server (lit "mullvad-nyc")) { addresses = lit "10.10.0.2/32" ∷ [] }))
          (fresh_daemon)) in
    all (
      listing (λ list. length list == 2) (ask (Request.list_servers none) d).0
      ∷ listing
          (λ list.
            length list == 1 && first (λ (s : ServerInfo). equal s.name (lit "mullvad-nyc")) list)
          (ask (Request.list_servers (some (lit "NYC"))) d).0
      ∷ listing
          (λ list.
            length list == 1 && first (λ (s : ServerInfo). equal s.name (lit "proton-ch")) list)
          (ask (Request.list_servers (some (lit "10.20.0"))) d).0
      ∷ listing (λ list. length list == 2)
          (ask (Request.list_servers (some (lit "198.51.100"))) d).0
      ∷ listing (λ list. is_empty list) (ask (Request.list_servers (some (lit "tokyo"))) d).0
      ∷ [])

abbrev add_server_generates_a_key_and_exposes_only_the_derived_public_one : Bool
add_server_generates_a_key_and_exposes_only_the_derived_public_one =
    let d = tell now (Request.add_server (server (lit "nexus"))) (fresh_daemon) in
    servers_hold
      (entry_of (lit "nexus") (λ s.
        first
          (λ (t : ServerConfig).
            same_result (public_key sample t.private_key) s.public_key
            && not (equal s.public_key t.private_key))
          d.cfg.servers))
      d

abbrev add_server_caches_the_resolved_endpoint : Bool
add_server_caches_the_resolved_endpoint =
    let d = onboarded in
    first (λ (s : ServerConfig). of_some (equal (lit "198.51.100.10:51820")) s.resolved_endpoint)
      d.cfg.servers

abbrev add_server_adopts_a_supplied_private_key : Bool
add_server_adopts_a_supplied_private_key =
    let d =
      tell now (Request.add_server (record (server (lit "nexus")) { private_key = some other_key }))
        (fresh_daemon) in
    first (λ (s : ServerConfig). equal s.private_key other_key) d.cfg.servers

abbrev add_server_rejects_a_bad_address : Bool
add_server_rejects_a_bad_address =
    let (r, d) =
      ask
        (Request.add_server (record (server (lit "broken")) { addresses = lit "not-a-cidr" ∷ [] }))
        (onboarded) in
    all (error_has (lit "address") r ∷ (length d.cfg.servers == 1) ∷ [])

abbrev add_server_rejects_a_bad_peer_key : Bool
add_server_rejects_a_bad_peer_key =
    let (r, d) =
      ask (Request.add_server (record (server (lit "broken")) { public_key = lit "not-a-key" }))
        (onboarded) in
    all (error_has (lit "public_key") r ∷ (length d.cfg.servers == 1) ∷ [])

abbrev add_server_rejects_a_bad_supplied_private_key : Bool
add_server_rejects_a_bad_supplied_private_key =
    let (r, d) =
      ask
        (Request.add_server
          (record (server (lit "broken")) { private_key = some (lit "not-a-key") }))
        (fresh_daemon) in
    all (error_has (lit "private_key") r ∷ is_empty d.cfg.servers ∷ [])

abbrev add_server_rejects_empty_name : Bool
add_server_rejects_empty_name =
    let (r, d) = ask (Request.add_server (server [])) (onboarded) in
    all (error_has (lit "name") r ∷ [])

abbrev a_server_with_a_corrupt_stored_key_is_still_listed_and_removable : Bool
a_server_with_a_corrupt_stored_key_is_still_listed_and_removable =
    let d = set_stored (λ s. record s { private_key = lit "corrupted" }) onboarded in
    all (
      servers_hold
        (λ list.
          length list == 1
          && first
              (λ (s : ServerInfo). all (
                equal s.name (lit "nexus")
                ∷ contains s.public_key (lit "unavailable")
                ∷ not s.active
                ∷ []))
              list)
        d
      ∷ listing is_empty (ask (Request.remove_server (lit "nexus")) d).0
      ∷ [])

abbrev remove_unknown_server_errors : Bool
remove_unknown_server_errors =
    let (r, d) = ask (Request.remove_server (lit "ghost")) (onboarded) in
    all (error_has (lit "unknown server") r ∷ [])

abbrev add_and_remove_servers_round_trip_through_the_list : Bool
add_and_remove_servers_round_trip_through_the_list =
    let d = tell now (Request.add_server (server (lit "edge"))) (onboarded) in
    all (
      servers_hold
        (λ list.
          any (λ s. equal s.name (lit "nexus")) list && any (λ s. equal s.name (lit "edge")) list)
        d
      ∷ servers_hold
          (λ list. length list == 1 && first (λ (s : ServerInfo). equal s.name (lit "nexus")) list)
          (tell now (Request.remove_server (lit "edge")) (d))
      ∷ [])

abbrev get_server_returns_detail_for_a_known_server : Bool
get_server_returns_detail_for_a_known_server =
    detailing
      (λ det. all (
        equal det.name (lit "nexus")
        ∷ equal det.public_key peer_key
        ∷ equal det.endpoint (lit "198.51.100.10:51820")
        ∷ same_number det.keepalive (some 25)
        ∷ not det.has_preshared_key
        ∷ []))
      (ask (Request.get_server (lit "nexus")) onboarded).0

abbrev get_server_reports_a_stored_preshared_key_as_a_flag : Bool
get_server_reports_a_stored_preshared_key_as_a_flag =
    detailing (λ det. det.has_preshared_key)
      (ask (Request.get_server (lit "nexus")) (
        tell now
          (Request.add_server (record (server (lit "nexus")) { preshared_key = some other_key }))
          (fresh_daemon))).0

abbrev get_server_unknown_errors : Bool
get_server_unknown_errors =
    let (r, d) = ask (Request.get_server (lit "ghost")) (onboarded) in
    all (error_has (lit "unknown server") r ∷ [])

-- Every test passes.
servers_runs_pass :
    all (
      a_fresh_daemon_has_no_servers ∷ list_servers_filters_by_query_daemon_side
      ∷ add_server_generates_a_key_and_exposes_only_the_derived_public_one
      ∷ add_server_caches_the_resolved_endpoint ∷ add_server_adopts_a_supplied_private_key
      ∷ add_server_rejects_a_bad_address ∷ add_server_rejects_a_bad_peer_key
      ∷ add_server_rejects_a_bad_supplied_private_key ∷ add_server_rejects_empty_name
      ∷ a_server_with_a_corrupt_stored_key_is_still_listed_and_removable
      ∷ remove_unknown_server_errors ∷ add_and_remove_servers_round_trip_through_the_list
      ∷ get_server_returns_detail_for_a_known_server
      ∷ get_server_reports_a_stored_preshared_key_as_a_flag ∷ get_server_unknown_errors ∷ [])
    ≡ true
unfolding lit equal trim trim_start trim_end is_whitespace split split_once parse_unsigned show_ℕ
    contains starts_with to_ascii_lowercase from_lookup resolve_endpoint or_cached endpoint_addr
    parse_address parse_addresses parse_allowed_ip parse_dns_entry parse_dns parse_named_key
    parse_preshared build_peer peer_endpoint validate_server traverse pure lift attempt raise ◌>>=◌
    naming write_private directory create_parent sync_parent save rsplit_dot stem_of file_stem
    with_extension shown put next_fault call outcome settle touch opened open_truncate take
    append_to write_all rename on_backend get_cfg set_cfg persist set_last_connect is_connecting
    handshake_age derive_state server_of edited commit spec_of add_server import_server
    remove_server edit_server get_server active_public_key listed list_one peer_age list_servers
    status_of read_status cache_endpoint is_outdated save_cache refresh switch_server disconnect
    handle fake info detail matches public_key named find_server replace_first upsert_server
    Config.remove_server
servers_runs_pass = refl
