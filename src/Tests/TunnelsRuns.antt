-- ===== src/Tests/TunnelsRuns.antt =====
-- The tests of daemon/src/daemon.rs for the requests that switch and disconnect, by name.
use wirefinder.Prelude.{
  Bool, true, false, not, ◌&&◌, ◌+◌, ◌-◌, ◌≡◌, refl, none, some, List, [], ◌∷◌, is_some,
}
use wirefinder.Prelude.Lists.{any}
use wirefinder.Text.{
  Text, lit, equal, trim, trim_start, trim_end, is_whitespace, split, split_once, parse_unsigned,
  show_ℕ, contains, starts_with, to_ascii_lowercase,
}
use wirefinder.Result.{traverse}
use wirefinder.Exec.{pure, lift, attempt, raise, ◌>>=◌}
use wirefinder.Keys.{public_key}
use wirefinder.Proto.{Request, ServerInfo, alive, connecting, stale, never, matches}
use wirefinder.Config.{ServerConfig, named, find_server, replace_first, upsert_server, info, detail}
use wirefinder.Config
use wirefinder.Config.Store.{save, naming, write_private, directory, create_parent, sync_parent}
use wirefinder.Config.Store.Fs.{
  rsplit_dot, stem_of, file_stem, with_extension, shown, put, next_fault, call, outcome, settle,
  touch, opened, open_truncate, take, append_to, write_all, rename,
}
use wirefinder.Wireguard.Validate.{
  from_lookup, resolve_endpoint, or_cached, endpoint_addr, parse_address, parse_addresses,
  parse_allowed_ip, parse_dns_entry, parse_dns, parse_named_key, parse_preshared, build_peer,
  peer_endpoint, validate_server,
}
use wirefinder.Daemon.State.{
  on_backend, get_cfg, set_cfg, persist, set_last_connect, is_connecting, handshake_age,
  derive_state, connecting_window, second,
}
use wirefinder.Daemon.Servers.{
  server_of, edited, commit, spec_of, add_server, import_server, remove_server, edit_server,
  get_server, active_public_key,
}
use wirefinder.Daemon.Status.{listed, list_one, peer_age, list_servers, status_of, read_status}
use wirefinder.Daemon.Handle.{
  cache_endpoint, is_outdated, save_cache, refresh, switch_server, disconnect, handle,
}
use wirefinder.Tests.Assert.{all, same_texts}
use wirefinder.Tests.FakeWireguard.{
  fake, server, fresh_daemon, at_hand, now, ask, tell, onboarded, error_has, reporting,
  is_disconnected, is_switched, of_some, same_state, entry_of, servers_hold, peers_first, set_live,
  set_fail, other_key,
}

abbrev edge_key : Text
edge_key = lit "XhbwkaURz3Tcc2A7TmV89aB+cHOJayNRiSH2My/r1Bk="

-- The keys at the indices 0 and 1 differ, or are equal.
abbrev distinct_keys : List ServerInfo → Bool
distinct_keys (s ∷ t ∷ rest) = not (equal s.public_key t.public_key)
distinct_keys _ = false

abbrev same_peers : List ServerConfig → Bool
same_peers (s ∷ t ∷ rest) = equal s.public_key t.public_key
same_peers _ = false

abbrev switching_when_no_server_exists_is_an_unknown_server_error : Bool
switching_when_no_server_exists_is_an_unknown_server_error =
    let (r, d) = ask (Request.switch_server (lit "nexus")) (fresh_daemon) in
    all (error_has (lit "unknown server") r ∷ [])

abbrev switching_marks_the_server_active_and_reports_connecting : Bool
switching_marks_the_server_active_and_reports_connecting =
    let (r, d) = ask (Request.switch_server (lit "nexus")) onboarded in
    all (
      is_switched (lit "nexus") r
      ∷ any (equal (lit "switch:nexus")) d.backend.calls
      ∷ servers_hold
          (entry_of (lit "nexus") (λ s. s.active && of_some (same_state connecting) s.state)) d
      ∷ peers_first (λ p. same_state p.state connecting) d
      ∷ [])

abbrev the_active_server_lists_alive_once_a_handshake_lands : Bool
the_active_server_lists_alive_once_a_handshake_lands =
    let d =
      set_live (some now.system_time)
        (tell now (Request.switch_server (lit "nexus")) (onboarded)) in
    servers_hold (entry_of (lit "nexus") (λ s. s.active && of_some (same_state alive) s.state)) d

abbrev an_inactive_server_lists_no_state : Bool
an_inactive_server_lists_no_state =
    servers_hold (entry_of (lit "nexus") (λ s. not s.active && not (is_some s.state))) onboarded

abbrev disconnect_brings_the_interface_down : Bool
disconnect_brings_the_interface_down =
    let d = tell now (Request.switch_server (lit "nexus")) (onboarded) in
    let (r, e) = ask Request.disconnect d in
    all (
      reporting (λ s. true) (ask Request.status d).0
      ∷ is_disconnected r
      ∷ is_disconnected (ask Request.status e).0
      ∷ [])

abbrev state_derivation_covers_every_case : Bool
state_derivation_covers_every_case = all (
    same_state (derive_state (some 5) false) alive
    ∷ same_state (derive_state (some 5) true) alive
    ∷ same_state (derive_state (some 9999) false) stale
    ∷ same_state (derive_state none true) connecting
    ∷ same_state (derive_state none false) never
    ∷ [])

abbrev a_recent_handshake_reads_as_alive : Bool
a_recent_handshake_reads_as_alive =
    peers_first (λ p. same_state p.state alive)
      (set_live (some now.system_time) (tell now (Request.switch_server (lit "nexus")) (onboarded)))

abbrev epoch_handshake_is_treated_as_never_handshaked : Bool
epoch_handshake_is_treated_as_never_handshaked =
    peers_first (λ p. same_state p.state never)
      (set_live (some 0) (record (tell now (Request.switch_server (lit "nexus")) (onboarded)) {
        last_connect = none;
      }))

abbrev a_failed_switch_surfaces_the_backend_error : Bool
a_failed_switch_surfaces_the_backend_error =
    let (r, d) =
      ask (Request.switch_server (lit "nexus")) (set_fail (lit "kernel exploded") onboarded) in
    all (error_has (lit "kernel exploded") r ∷ [])

abbrev switching_between_two_servers_moves_the_active_flag : Bool
switching_between_two_servers_moves_the_active_flag =
    let d =
      tell (at_hand other_key)
        (Request.add_server (record (server (lit "edge")) {
          public_key = edge_key;
          addresses = lit "192.168.50.5/24" ∷ [];
        }))
        (onboarded) in
    let e = tell now (Request.switch_server (lit "nexus")) (d) in
    let f = tell now (Request.switch_server (lit "edge")) (e) in
    all (
      servers_hold distinct_keys d
      ∷ servers_hold (entry_of (lit "nexus") (λ s. s.active)) e
      ∷ servers_hold (entry_of (lit "edge") (λ s. not s.active)) e
      ∷ same_texts e.backend.last_switch_addresses (lit "10.0.0.2/24" ∷ [])
      ∷ servers_hold (entry_of (lit "nexus") (λ s. not s.active)) f
      ∷ servers_hold (entry_of (lit "edge") (λ s. s.active)) f
      ∷ same_texts f.backend.last_switch_addresses (lit "192.168.50.5/24" ∷ [])
      ∷ [])

abbrev two_tunnels_to_the_same_server_are_told_apart : Bool
two_tunnels_to_the_same_server_are_told_apart =
    let d =
      tell (at_hand other_key) (Request.add_server (server (lit "nexus-b")))
        (tell now (Request.add_server (server (lit "nexus-a"))) (fresh_daemon)) in
    let e = tell now (Request.switch_server (lit "nexus-a")) (d) in
    all (
      same_peers d.cfg.servers
      ∷ servers_hold (entry_of (lit "nexus-a") (λ s. s.active)) e
      ∷ servers_hold (entry_of (lit "nexus-b") (λ s. not s.active)) e
      ∷ [])

abbrev the_connecting_window_expires_to_never : Bool
the_connecting_window_expires_to_never =
    let d = tell now (Request.switch_server (lit "nexus")) (onboarded) in
    let e = record d { last_connect = some (now.instant - (connecting_window + second)) } in
    all (
      is_connecting now d
      ∷ not (is_connecting now e)
      ∷ peers_first (λ p. same_state p.state never) e
      ∷ [])

-- Every test passes.
tunnels_runs_pass :
    all (
      switching_when_no_server_exists_is_an_unknown_server_error
      ∷ switching_marks_the_server_active_and_reports_connecting
      ∷ the_active_server_lists_alive_once_a_handshake_lands ∷ an_inactive_server_lists_no_state
      ∷ disconnect_brings_the_interface_down ∷ state_derivation_covers_every_case
      ∷ a_recent_handshake_reads_as_alive ∷ epoch_handshake_is_treated_as_never_handshaked
      ∷ a_failed_switch_surfaces_the_backend_error
      ∷ switching_between_two_servers_moves_the_active_flag
      ∷ two_tunnels_to_the_same_server_are_told_apart ∷ the_connecting_window_expires_to_never ∷ [])
    ≡ true
unfolding lit equal trim trim_start trim_end is_whitespace split split_once parse_unsigned show_ℕ
    contains starts_with to_ascii_lowercase from_lookup resolve_endpoint or_cached endpoint_addr
    parse_address parse_addresses parse_allowed_ip parse_dns_entry parse_dns parse_named_key
    parse_preshared build_peer peer_endpoint validate_server traverse pure lift attempt raise ◌>>=◌
    naming write_private directory create_parent sync_parent save rsplit_dot stem_of file_stem
    with_extension shown put next_fault call outcome settle touch opened open_truncate take
    append_to write_all rename on_backend get_cfg set_cfg persist set_last_connect is_connecting
    handshake_age derive_state server_of edited commit spec_of add_server import_server
    remove_server edit_server get_server active_public_key listed list_one peer_age list_servers
    status_of read_status cache_endpoint is_outdated save_cache refresh switch_server disconnect
    handle fake info detail matches public_key named find_server replace_first upsert_server
    Config.remove_server
tunnels_runs_pass = refl
