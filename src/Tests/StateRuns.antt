-- ===== src/Tests/StateRuns.antt =====
-- The tests of daemon/src/config.rs and daemon/src/daemon.rs that read the state file back or look at
-- JSON text, by name, at the format of Tests/Json, and the one of a dual-stack tunnel.
use wirefinder.Prelude.{Bool, true, not, ◌&&◌, ◌==◌, ◌≡◌, refl, none, some, List, [], ◌∷◌, ◌++◌}
use wirefinder.Prelude.Lists.{length}
use wirefinder.Text.{
  join, Text, lit, equal, trim, trim_start, trim_end, is_whitespace, split, split_once,
  parse_unsigned, show_ℕ, contains, starts_with, to_ascii_lowercase, before, strip_prefix,
  strip_suffix, lines, eq_ignore_ascii_case,
}
use wirefinder.Result.{Result, is_ok, traverse}
use wirefinder.Exec.{pure, lift, attempt, raise, ◌>>=◌}
use wirefinder.Keys.{public_key}
use wirefinder.Proto.{matches, Request, Response, ServerInfo, ServerSpec}
use wirefinder.Config.{
  ServerConfig, Config, default, named, find_server, replace_first, upsert_server, info, detail,
}
use wirefinder.Config
use wirefinder.Config.Store.{
  save, load, loaded, naming, write_private, directory, create_parent, sync_parent,
}
use wirefinder.Config.Store.Fs.{
  Disk, read_to_string, read_outcome, read_file, rsplit_dot, stem_of, file_stem, with_extension,
  shown, put, next_fault, call, outcome, settle, touch, opened, open_truncate, take, append_to,
  write_all, rename,
}
use wirefinder.WgConf.{
  parse, read_lines, read_line, read_content, key_value, assign, update_iface, update_last,
  set_iface, set_peer, set_scalar, parse_num, csv, content, header, start_section, finish, the_peer,
}
use wirefinder.Wireguard.Validate.{
  from_lookup, resolve_endpoint, or_cached, endpoint_addr, parse_address, parse_addresses,
  parse_allowed_ip, parse_dns_entry, parse_dns, parse_named_key, parse_preshared, build_peer,
  peer_endpoint, validate_server,
}
use wirefinder.Daemon.State.{
  load as load_daemon, started, Daemon, on_backend, get_cfg, set_cfg, persist, set_last_connect,
  is_connecting, handshake_age, derive_state,
}
use wirefinder.Daemon.Servers.{
  server_of, edited, commit, spec_of, add_server, import_server, remove_server, edit_server,
  get_server, active_public_key,
}
use wirefinder.Daemon.Status.{listed, list_one, peer_age, list_servers, status_of, read_status}
use wirefinder.Daemon.Handle.{
  cache_endpoint, is_outdated, save_cache, refresh, switch_server, disconnect, handle,
}
use wirefinder.Tests.Assert.{all, holds, same_texts, same_number}
use wirefinder.Tests.Sample.{sample, peer_key}
use wirefinder.Tests.FakeWireguard.{
  FakeWireguard, fake, server, fresh_daemon, now, listing, first, of_some, other_key, temp_path,
}
use wirefinder.Tests.ConfigRuns.{sample_server, of_file}
use wirefinder.Tests.Json.{
  print, print_items, print_fields, quoted, back, finished, begins, step, tokens, read_value,
  read_items, read_fields, read,
}
use wirefinder.Tests.Json.Format.Replies.{detail_value, response_value, json_codec}

abbrev empty_disk : Disk
empty_disk = record { files = λ name. none; faults = [] }

abbrev one_server : ServerConfig → Config
one_server s = (upsert_server default s).0

-- `load().unwrap()`, compared by what it is stored as
abbrev same_config : Config → Config → Bool
same_config a b = holds (λ t. holds (equal t) (json_codec.encode b)) (json_codec.encode a)

abbrev save_then_load_round_trips_and_creates_parent_dirs : Bool
save_then_load_round_trips_and_creates_parent_dirs =
    let cfg = one_server (sample_server (lit "nexus")) in
    let (r, d) = save json_codec temp_path cfg empty_disk in
    is_ok r && holds (same_config cfg) (load json_codec temp_path d).0

abbrev the_stored_private_key_is_in_the_file_but_the_file_is_0600 : Bool
the_stored_private_key_is_in_the_file_but_the_file_is_0600 =
    let server = sample_server (lit "nexus") in
    let (r, d) = save json_codec temp_path (one_server server) empty_disk in
    is_ok r
    && of_file (λ f. contains f.content server.private_key && f.mode == 0o600)
        (d.files temp_path.file_name)

abbrev detail_omits_secrets_and_exposes_editable_fields : Bool
detail_omits_secrets_and_exposes_editable_fields =
    let server = record (sample_server (lit "nexus")) { preshared_key = some other_key } in
    let shown = detail server in
    let json = print (detail_value shown) in
    all (
      equal shown.public_key server.public_key
      ∷ equal shown.endpoint server.endpoint
      ∷ same_texts shown.addresses server.addresses
      ∷ same_texts shown.allowed_ips server.allowed_ips
      ∷ same_texts shown.dns server.dns
      ∷ same_number shown.keepalive server.keepalive
      ∷ shown.has_preshared_key
      ∷ not (contains json other_key)
      ∷ not (contains json server.private_key)
      ∷ [])

abbrev ask : Request → Daemon FakeWireguard → Response × Daemon FakeWireguard
ask req d = handle sample json_codec temp_path fake now req d

abbrev tell : Request → Daemon FakeWireguard → Daemon FakeWireguard
tell req d = (ask req d).1

-- `Daemon::load` over the same file, with a new backend
abbrev restarted : Daemon FakeWireguard → Result (Daemon FakeWireguard)
restarted d = (load_daemon json_codec temp_path d.disk fresh_daemon.backend).0

abbrev onboarded : Daemon FakeWireguard
onboarded = tell (Request.add_server (server (lit "nexus"))) fresh_daemon

abbrev servers_survive_a_daemon_restart : Bool
servers_survive_a_daemon_restart =
    holds
      (λ d2.
        listing
          (λ list.
            (length list == 1) && first (λ (s : ServerInfo). equal s.name (lit "nexus")) list)
          (ask (Request.list_servers none) d2).0)
      (restarted onboarded)

abbrev stale_cache : List ServerConfig → List ServerConfig
stale_cache [] = []
stale_cache (s ∷ ss) = record s { resolved_endpoint = some (lit "192.0.2.99:51820") } ∷ ss

abbrev is_cached : Text → Daemon FakeWireguard → Bool
is_cached addr d =
    first (λ (s : ServerConfig). of_some (equal addr) s.resolved_endpoint) d.cfg.servers

abbrev a_successful_switch_refreshes_and_persists_the_cached_endpoint : Bool
a_successful_switch_refreshes_and_persists_the_cached_endpoint =
    let stale = record onboarded { cfg = record { servers = stale_cache onboarded.cfg.servers } } in
    let d = tell (Request.switch_server (lit "nexus")) stale in
    is_cached (lit "198.51.100.10:51820") d
    && holds (is_cached (lit "198.51.100.10:51820")) (restarted d)

abbrev keeps_from : List Text → Response → Bool
keeps_from [] response = true
keeps_from (secret ∷ rest) response =
    not (contains (print (response_value response)) secret) && keeps_from rest response

abbrev all_keep : List Text → List Request → Daemon FakeWireguard → Bool
all_keep secrets [] d = true
all_keep secrets (req ∷ reqs) d =
    let (response, d2) = ask req d in keeps_from secrets response && all_keep secrets reqs d2

-- The key generator is not asked for the two keys of this test.
abbrev secret : Text
secret = other_key

abbrev psk : Text
psk = lit "cHJlc2hhcmVkIGtleSBvZiB0aGUgdGVzdCwgMzIgYi4="

abbrev secret_spec : ServerSpec
secret_spec = record (server (lit "nexus")) { private_key = some secret; preshared_key = some psk }

abbrev the_private_key_never_appears_in_any_client_facing_response : Bool
the_private_key_never_appears_in_any_client_facing_response =
    all_keep (secret ∷ psk ∷ [])
      (Request.list_servers none
        ∷ Request.status
        ∷ Request.add_server secret_spec
        ∷ Request.edit_server secret_spec
        ∷ Request.get_server (lit "nexus")
        ∷ [])
      (tell (Request.switch_server (lit "nexus"))
        (tell (Request.add_server secret_spec) fresh_daemon))

abbrev an_imported_private_key_never_appears_in_a_response : Bool
an_imported_private_key_never_appears_in_a_response =
    let conf =
      lit "[Interface]\nPrivateKey = "
      ++ (secret
          ++ (lit "\nAddress = 10.0.0.2/24\n[Peer]\nPublicKey = "
              ++ (peer_key ++ lit "\nEndpoint = 198.51.100.10:51820\nAllowedIPs = 0.0.0.0/0\n"))) in
    keeps_from (secret ∷ []) (ask (Request.import_server (lit "home") conf) fresh_daemon).0

abbrev a_dual_stack_tunnels_addresses_are_passed_to_the_backend_in_full : Bool
a_dual_stack_tunnels_addresses_are_passed_to_the_backend_in_full =
    let addresses = lit "10.0.0.2/32" ∷ lit "fd00::2/128" ∷ [] in
    let d =
      tell (Request.add_server (record (server (lit "ds")) { addresses = addresses }))
        fresh_daemon in
    same_texts (tell (Request.switch_server (lit "ds")) d).backend.last_switch_addresses addresses

-- Every test passes.
state_runs_pass :
    all (
      save_then_load_round_trips_and_creates_parent_dirs
      ∷ the_stored_private_key_is_in_the_file_but_the_file_is_0600
      ∷ detail_omits_secrets_and_exposes_editable_fields ∷ servers_survive_a_daemon_restart
      ∷ a_successful_switch_refreshes_and_persists_the_cached_endpoint
      ∷ the_private_key_never_appears_in_any_client_facing_response
      ∷ an_imported_private_key_never_appears_in_a_response ∷ [])
    ≡ true
unfolding join lit equal trim trim_start trim_end is_whitespace split split_once parse_unsigned
    show_ℕ contains starts_with to_ascii_lowercase from_lookup resolve_endpoint or_cached
    endpoint_addr parse_address parse_addresses parse_allowed_ip parse_dns_entry parse_dns
    parse_named_key parse_preshared build_peer peer_endpoint validate_server traverse pure lift
    attempt raise ◌>>=◌ naming write_private directory create_parent sync_parent save rsplit_dot
    stem_of file_stem with_extension shown put next_fault call outcome settle touch opened
    open_truncate take append_to write_all rename on_backend get_cfg set_cfg persist
    set_last_connect is_connecting handshake_age derive_state server_of edited commit spec_of
    add_server import_server remove_server edit_server get_server active_public_key listed list_one
    peer_age list_servers status_of read_status cache_endpoint is_outdated save_cache refresh
    switch_server disconnect handle fake info detail matches public_key named find_server
    replace_first upsert_server Config.remove_server before strip_prefix strip_suffix lines
    eq_ignore_ascii_case parse read_lines read_line read_content key_value assign update_iface
    update_last set_iface set_peer set_scalar parse_num csv content header start_section finish
    the_peer load loaded read_to_string read_outcome read_file load_daemon started print print_items
    print_fields quoted back finished begins step tokens read_value read_items read_fields read
state_runs_pass = refl
