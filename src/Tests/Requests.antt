-- ===== src/Tests/Requests.antt =====
-- The properties of the daemon's requests at concrete inputs.
use wirefinder.Prelude.{◌≡◌, ◌⊎◌, refl, some, [], ◌∷◌, false, map_some}
use wirefinder.Prelude.Lists.{is_empty}
use wirefinder.Text.{lit, equal, trim, split_once, parse_unsigned, show_ℕ}
use wirefinder.Result.{ok, err, traverse}
use wirefinder.External.{SocketAddr}
use wirefinder.Exec.{pure, lift, attempt, raise, ◌>>=◌}
use wirefinder.Keys.{public_key}
use wirefinder.Proto.{Request, ServerSpec}
use wirefinder.Config.{ServerConfig, named, find_server, replace_first, upsert_server}
use wirefinder.Config.Store.{save, naming, write_private, directory, create_parent, sync_parent}
use wirefinder.Config.Store.Fs.{
  rsplit_dot, stem_of, file_stem, with_extension, shown, put, next_fault, call, outcome, settle,
  touch, opened, open_truncate, take, append_to, write_all, rename,
}
use wirefinder.Wireguard.Validate.{
  from_lookup, resolve_endpoint, or_cached, endpoint_addr, parse_address, parse_addresses,
  parse_allowed_ip, parse_dns_entry, parse_dns, parse_named_key, parse_preshared, build_peer,
  peer_endpoint, validate_server,
}
use wirefinder.Wireguard.Kernel.{status}
use wirefinder.Daemon.State.{on_backend, get_cfg, set_cfg, persist}
use wirefinder.Daemon.Servers.{
  server_of, edited, commit, add_server, active_public_key, edit_server,
}
use wirefinder.Daemon.Commit.{
  added, cached, IsCommitted, add_server_ok, add_server_failed, IsEdited, edit_server_ok,
}
use wirefinder.Daemon.Edit.{edit_server-private_key}
use wirefinder.Daemon.Secrets.{AreAlike, handle_alike}
use wirefinder.Daemon.Handle.{handle}
use wirefinder.Ui.Agreement.{IsExpected, handle-IsExpected}
use wirefinder.Tests.World.{
  toy, toy_codec, state_path, toy_ops, toy_wg, at_noon, fresh, configured, home, work, home_spec,
}

adds : (add_server toy toy_codec state_path at_noon home_spec fresh).0 ≡ ok tt
unfolding add_server lit equal trim split_once parse_unsigned show_ℕ from_lookup resolve_endpoint
    or_cached endpoint_addr parse_address parse_addresses parse_allowed_ip parse_dns_entry parse_dns
    parse_named_key parse_preshared build_peer peer_endpoint validate_server traverse pure lift
    attempt raise ◌>>=◌ naming write_private directory create_parent sync_parent save rsplit_dot
    stem_of file_stem with_extension shown put next_fault call outcome settle touch opened
    open_truncate take append_to write_all rename named find_server replace_first upsert_server
    on_backend get_cfg set_cfg persist server_of commit
adds = refl

edits : (edit_server toy toy_codec state_path toy_wg at_noon home_spec configured).0 ≡ ok tt
unfolding edit_server edited active_public_key public_key status toy_ops lit equal trim split_once
    parse_unsigned show_ℕ from_lookup resolve_endpoint or_cached endpoint_addr parse_address
    parse_addresses parse_allowed_ip parse_dns_entry parse_dns parse_named_key parse_preshared
    build_peer peer_endpoint validate_server traverse pure lift attempt raise ◌>>=◌ naming
    write_private directory create_parent sync_parent save rsplit_dot stem_of file_stem
    with_extension shown put next_fault call outcome settle touch opened open_truncate take
    append_to write_all rename named find_server replace_first upsert_server on_backend get_cfg
    set_cfg persist server_of commit
edits = refl

add_server_ok_example :
    (is_empty (trim home_spec.name) ≡ false)
    × IsCommitted toy toy_codec state_path at_noon
        (added at_noon home_spec)
        fresh
        (add_server toy toy_codec state_path at_noon home_spec fresh).1
add_server_ok_example = add_server_ok toy toy_codec state_path at_noon home_spec fresh adds

edit_server_ok_example :
    IsEdited toy toy_codec state_path toy_wg at_noon home_spec configured
      (edit_server toy toy_codec state_path toy_wg at_noon home_spec configured).1
edit_server_ok_example =
    edit_server_ok toy toy_codec state_path toy_wg at_noon home_spec configured edits

edit_server-private_key_example :
    map_some
      (λ s. s.private_key)
      (find_server
        (edit_server toy toy_codec state_path toy_wg at_noon home_spec configured).1.cfg
        (trim home_spec.name))
    ≡ map_some (λ s. s.private_key) (find_server configured.cfg (trim home_spec.name))
edit_server-private_key_example =
    edit_server-private_key toy toy_codec state_path toy_wg at_noon home_spec configured edits refl

-- The name is blank.
abbrev blank_spec : ServerSpec
blank_spec = record home_spec { name = lit " " }

blank :
    (add_server toy toy_codec state_path at_noon blank_spec fresh).0
    ≡ err (lit "server name must not be empty")
unfolding add_server trim lit raise
blank = refl

add_server_failed_example :
    ((add_server toy toy_codec state_path at_noon blank_spec fresh).1 ≡ fresh)
    ⊎ ((addr : SocketAddr) × (validate_server toy at_noon.resolve (added at_noon blank_spec)
          ≡ ok addr)
        × ((add_server toy toy_codec state_path at_noon blank_spec fresh).1.cfg
            ≡ (upsert_server fresh.cfg (cached toy (added at_noon blank_spec) addr)).0)
        × ((save toy_codec state_path
              (upsert_server fresh.cfg (cached toy (added at_noon blank_spec) addr)).0
              fresh.disk).0
            ≡ err (lit "server name must not be empty")))
add_server_failed_example =
    add_server_failed toy toy_codec state_path at_noon blank_spec fresh blank

-- `home` with another preshared key and another cached endpoint.
abbrev other_home : ServerConfig
other_home = record home { preshared_key = some (lit "r"); resolved_endpoint = some (lit "9:1") }

alike : AreAlike toy configured.cfg.servers (other_home ∷ work ∷ [])
alike = (
  record {
    name = refl;
    public_key = refl;
    endpoint = refl;
    addresses = refl;
    allowed_ips = refl;
    listen_port = refl;
    mtu = refl;
    keepalive = refl;
    has_preshared_key = refl;
    dns = refl;
    same_key = refl;
  },
  (
    record {
      name = refl;
      public_key = refl;
      endpoint = refl;
      addresses = refl;
      allowed_ips = refl;
      listen_port = refl;
      mtu = refl;
      keepalive = refl;
      has_preshared_key = refl;
      dns = refl;
      same_key = refl;
    },
    tt,
  ),
)

handle_alike_example :
    (handle toy toy_codec state_path toy_wg at_noon (Request.get_server (lit "home")) configured).0
    ≡ (handle toy toy_codec state_path toy_wg at_noon
        (Request.get_server (lit "home"))
        (record configured { cfg = record { servers = other_home ∷ work ∷ [] } })).0
handle_alike_example =
    handle_alike toy toy_codec state_path toy_wg at_noon (Request.get_server (lit "home"))
      configured (record configured { cfg = record { servers = other_home ∷ work ∷ [] } }) tt alike
      refl refl

handle-IsExpected_example :
    IsExpected
      (λ q. (handle toy toy_codec state_path toy_wg at_noon q configured).0)
      (Request.switch_server (lit "home"))
handle-IsExpected_example =
    handle-IsExpected toy toy_codec state_path toy_wg at_noon (Request.switch_server (lit "home"))
      configured
