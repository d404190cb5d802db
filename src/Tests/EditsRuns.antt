-- ===== src/Tests/EditsRuns.antt =====
-- The tests of daemon/src/daemon.rs for the requests that edit and import servers, by name.
use wirefinder.Prelude.{Bool, true, false, not, ◌&&◌, ◌==◌, ◌≡◌, refl, none, some, [], ◌∷◌, ◌++◌}
use wirefinder.Prelude.Lists.{find, is_empty, length}
use wirefinder.Text.{
  Text, lit, equal, trim, trim_start, trim_end, is_whitespace, split, split_once, parse_unsigned,
  show_ℕ, contains, starts_with, to_ascii_lowercase, before, strip_prefix, strip_suffix, lines,
  eq_ignore_ascii_case,
}
use wirefinder.Result.{traverse}
use wirefinder.Exec.{pure, lift, attempt, raise, ◌>>=◌}
use wirefinder.Keys.{public_key}
use wirefinder.Proto.{Request, Response, ServerInfo, matches}
use wirefinder.Config.{ServerConfig, named, find_server, replace_first, upsert_server, info, detail}
use wirefinder.Config
use wirefinder.Config.Store.{save, naming, write_private, directory, create_parent, sync_parent}
use wirefinder.Config.Store.Fs.{
  rsplit_dot, stem_of, file_stem, with_extension, shown, put, next_fault, call, outcome, settle,
  touch, opened, open_truncate, take, append_to, write_all, rename,
}
use wirefinder.WgConf.{
  parse, read_lines, read_line, read_content, key_value, assign, update_iface, update_last,
  set_iface, set_peer, set_scalar, parse_num, csv, content, header, start_section, finish, the_peer,
}
use wirefinder.Wireguard.Validate.{
  from_lookup, resolve_endpoint, or_cached, endpoint_addr, parse_address, parse_addresses,
  parse_allowed_ip, parse_dns_entry, parse_dns, parse_named_key, parse_preshared, build_peer,
  peer_endpoint, validate_server,
}
use wirefinder.Daemon.State.{
  on_backend, get_cfg, set_cfg, persist, set_last_connect, is_connecting, handshake_age,
  derive_state,
}
use wirefinder.Daemon.Servers.{
  server_of, edited, commit, spec_of, add_server, import_server, remove_server, edit_server,
  get_server, active_public_key,
}
use wirefinder.Daemon.Status.{listed, list_one, peer_age, list_servers, status_of, read_status}
use wirefinder.Daemon.Handle.{
  cache_endpoint, is_outdated, save_cache, refresh, switch_server, disconnect, handle,
}
use wirefinder.Tests.Assert.{all, same_texts}
use wirefinder.Tests.Sample.{sample, generated_key, peer_key}
use wirefinder.Tests.FakeWireguard.{
  fake, server, fresh_daemon, at_hand, now, ask, tell, onboarded, error_has, listing, first,
  of_some, other_key, same_result,
}

abbrev edge_key : Text
edge_key = lit "XhbwkaURz3Tcc2A7TmV89aB+cHOJayNRiSH2My/r1Bk="

abbrev error_is_empty : Response → Bool
error_is_empty (Response.error e) = is_empty e
error_is_empty _ = false

abbrev valid_conf : Text
valid_conf =
    lit "[Interface]\nPrivateKey = "
    ++ (generated_key
        ++ (lit "\nAddress = 10.0.0.2/24\n[Peer]\nPublicKey = "
            ++ (peer_key ++ lit "\nEndpoint = 198.51.100.10:51820\nAllowedIPs = 0.0.0.0/0\n")))

abbrev edit_refreshes_the_cached_resolved_endpoint : Bool
edit_refreshes_the_cached_resolved_endpoint =
    let d =
      tell now
        (Request.edit_server
          (record (server (lit "nexus")) { endpoint = lit "198.51.100.20:51820" }))
        (onboarded) in
    first (λ (s : ServerConfig). of_some (equal (lit "198.51.100.20:51820")) s.resolved_endpoint)
      d.cfg.servers

abbrev edit_preserves_the_private_key_when_none_is_supplied : Bool
edit_preserves_the_private_key_when_none_is_supplied =
    let (r, d) =
      ask
        (Request.edit_server (record (server (lit "nexus")) {
          private_key = none;
          endpoint = lit "198.51.100.20:51820";
        }))
        (tell now
          (Request.add_server (record (server (lit "nexus")) { private_key = some other_key }))
          (fresh_daemon)) in
    all (
      listing (λ list. true) r
      ∷ first
          (λ (s : ServerConfig).
            equal s.private_key other_key && equal s.endpoint (lit "198.51.100.20:51820"))
          d.cfg.servers
      ∷ [])

abbrev edit_adopts_a_supplied_private_key : Bool
edit_adopts_a_supplied_private_key =
    let d =
      tell now
        (Request.edit_server (record (server (lit "nexus")) { private_key = some other_key }))
        (onboarded) in
    first (λ (s : ServerConfig). equal s.private_key other_key) d.cfg.servers

abbrev edit_preserves_the_preshared_key_when_none_is_supplied : Bool
edit_preserves_the_preshared_key_when_none_is_supplied =
    let d =
      tell now (Request.edit_server (record (server (lit "nexus")) { preshared_key = none })) (
        tell now
          (Request.add_server (record (server (lit "nexus")) { preshared_key = some other_key }))
          (fresh_daemon)) in
    first (λ (s : ServerConfig). of_some (equal other_key) s.preshared_key) d.cfg.servers

abbrev edit_adopts_a_supplied_preshared_key : Bool
edit_adopts_a_supplied_preshared_key =
    let d =
      tell now
        (Request.edit_server (record (server (lit "nexus")) { preshared_key = some other_key }))
        (onboarded) in
    first (λ (s : ServerConfig). of_some (equal other_key) s.preshared_key) d.cfg.servers

abbrev edit_of_an_unknown_server_errors_and_persists_nothing : Bool
edit_of_an_unknown_server_errors_and_persists_nothing =
    let (r, d) = ask (Request.edit_server (server (lit "ghost"))) (fresh_daemon) in
    all (error_has (lit "unknown server") r ∷ is_empty d.cfg.servers ∷ [])

abbrev edit_of_the_active_tunnel_is_rejected : Bool
edit_of_the_active_tunnel_is_rejected =
    let (r, d) =
      ask
        (Request.edit_server
          (record (server (lit "nexus")) { endpoint = lit "new.example.com:51820" }))
        (tell now (Request.switch_server (lit "nexus")) (onboarded)) in
    all (
      error_has (lit "active tunnel") r
      ∷ first (λ (s : ServerConfig). equal s.endpoint (lit "198.51.100.10:51820")) d.cfg.servers
      ∷ [])

abbrev edit_of_a_non_active_tunnel_while_another_is_active_succeeds : Bool
edit_of_a_non_active_tunnel_while_another_is_active_succeeds =
    let (r, d) =
      ask
        (Request.edit_server (record (server (lit "edge")) {
          public_key = edge_key;
          addresses = lit "192.168.50.5/24" ∷ [];
          endpoint = lit "198.51.100.30:51820";
        }))
        (tell now (Request.switch_server (lit "nexus")) (
          tell (at_hand other_key)
            (Request.add_server (record (server (lit "edge")) {
              public_key = edge_key;
              addresses = lit "192.168.50.5/24" ∷ [];
            }))
            (onboarded))) in
    all (
      listing (λ list. true) r
      ∷ of_some (λ (s : ServerConfig). equal s.endpoint (lit "198.51.100.30:51820"))
          (find (λ s. equal s.name (lit "edge")) d.cfg.servers)
      ∷ [])

abbrev edit_rejects_a_bad_address_and_persists_nothing : Bool
edit_rejects_a_bad_address_and_persists_nothing =
    let (r, d) =
      ask
        (Request.edit_server (record (server (lit "nexus")) { addresses = lit "not-a-cidr" ∷ [] }))
        (onboarded) in
    all (
      error_has (lit "address") r
      ∷ first (λ (s : ServerConfig). same_texts s.addresses (lit "10.0.0.2/24" ∷ [])) d.cfg.servers
      ∷ [])

abbrev import_adds_a_server_with_a_derived_public_key : Bool
import_adds_a_server_with_a_derived_public_key =
    let (r, d) = ask (Request.import_server (lit "home") (valid_conf)) fresh_daemon in
    listing
      (λ list.
        length list == 1
        && first
            (λ (s : ServerInfo).
              equal s.name (lit "home")
              && first
                  (λ (t : ServerConfig). same_result (public_key sample t.private_key) s.public_key)
                  d.cfg.servers)
            list)
      r

abbrev import_of_malformed_conf_errors_and_persists_nothing : Bool
import_of_malformed_conf_errors_and_persists_nothing =
    let (r, d) = ask (Request.import_server (lit "home") (lit "not a config")) fresh_daemon in
    all (error_has [] r ∷ not (error_is_empty r) ∷ is_empty d.cfg.servers ∷ [])

abbrev import_with_a_bad_key_surfaces_validate_server : Bool
import_with_a_bad_key_surfaces_validate_server =
    let (r, d) =
      ask
        (Request.import_server (lit "home") (
          lit
            "[Interface]\nPrivateKey = not-a-key\nAddress = 10.0.0.2/24\n[Peer]\nPublicKey = p\nEndpoint = h:51820\nAllowedIPs = 0.0.0.0/0\n"))
        (fresh_daemon) in
    all (error_has (lit "private_key") r ∷ is_empty d.cfg.servers ∷ [])

abbrev import_of_a_multi_peer_conf_is_rejected_end_to_end : Bool
import_of_a_multi_peer_conf_is_rejected_end_to_end =
    let (r, d) =
      ask
        (Request.import_server (lit "home") (
          lit "[Interface]\nPrivateKey = "
          ++ (generated_key
              ++ (lit "\nAddress = 10.0.0.2/24\n[Peer]\nPublicKey = "
                  ++ (peer_key
                      ++ (lit "\nEndpoint = h:1\nAllowedIPs = 0.0.0.0/0\n[Peer]\nPublicKey = "
                          ++ (peer_key ++ lit "\nEndpoint = h:2\nAllowedIPs = 0.0.0.0/0\n")))))))
        (fresh_daemon) in
    all (error_has (lit "one peer") r ∷ is_empty d.cfg.servers ∷ [])

-- Every test passes.
edits_runs_pass :
    all (
      edit_refreshes_the_cached_resolved_endpoint
      ∷ edit_preserves_the_private_key_when_none_is_supplied ∷ edit_adopts_a_supplied_private_key
      ∷ edit_preserves_the_preshared_key_when_none_is_supplied
      ∷ edit_adopts_a_supplied_preshared_key ∷ edit_of_an_unknown_server_errors_and_persists_nothing
      ∷ edit_of_the_active_tunnel_is_rejected
      ∷ edit_of_a_non_active_tunnel_while_another_is_active_succeeds
      ∷ edit_rejects_a_bad_address_and_persists_nothing
      ∷ import_adds_a_server_with_a_derived_public_key
      ∷ import_of_malformed_conf_errors_and_persists_nothing
      ∷ import_with_a_bad_key_surfaces_validate_server
      ∷ import_of_a_multi_peer_conf_is_rejected_end_to_end ∷ [])
    ≡ true
unfolding lit equal trim trim_start trim_end is_whitespace split split_once parse_unsigned show_ℕ
    contains starts_with to_ascii_lowercase from_lookup resolve_endpoint or_cached endpoint_addr
    parse_address parse_addresses parse_allowed_ip parse_dns_entry parse_dns parse_named_key
    parse_preshared build_peer peer_endpoint validate_server traverse pure lift attempt raise ◌>>=◌
    naming write_private directory create_parent sync_parent save rsplit_dot stem_of file_stem
    with_extension shown put next_fault call outcome settle touch opened open_truncate take
    append_to write_all rename on_backend get_cfg set_cfg persist set_last_connect is_connecting
    handshake_age derive_state server_of edited commit spec_of add_server import_server
    remove_server edit_server get_server active_public_key listed list_one peer_age list_servers
    status_of read_status cache_endpoint is_outdated save_cache refresh switch_server disconnect
    handle fake info detail matches public_key named find_server replace_first upsert_server
    Config.remove_server before strip_prefix strip_suffix lines eq_ignore_ascii_case parse
    read_lines read_line read_content key_value assign update_iface update_last set_iface set_peer
    set_scalar parse_num csv content header start_section finish the_peer
edits_runs_pass = refl
