-- ===== src/Tests/Restarts.antt =====
-- What a restart loads, at concrete inputs.
use wirefinder.Prelude.{◌≡◌, refl}
use wirefinder.Text.{lit, equal, trim, split_once, parse_unsigned, show_ℕ}
use wirefinder.Result.{ok, traverse}
use wirefinder.Exec.{pure, lift, attempt, raise, ◌>>=◌}
use wirefinder.Proto.{Request, Response}
use wirefinder.Config.{Config, named, find_server, replace_first, upsert_server}
use wirefinder.Config.Store.{
  Codec, save, naming, write_private, directory, create_parent, sync_parent,
}
use wirefinder.Config.Store.Fs.{
  rsplit_dot, stem_of, file_stem, with_extension, shown, put, next_fault, call, outcome, settle,
  touch, opened, open_truncate, take, append_to, write_all, rename,
}
use wirefinder.Config.Store.Recovery.{restart}
use wirefinder.Wireguard.Validate.{
  from_lookup, resolve_endpoint, or_cached, endpoint_addr, parse_address, parse_addresses,
  parse_allowed_ip, parse_dns_entry, parse_dns, parse_named_key, parse_preshared, build_peer,
  peer_endpoint, validate_server,
}
use wirefinder.Daemon.State.{on_backend, get_cfg, set_cfg, persist}
use wirefinder.Daemon.Servers.{server_of, commit, add_server}
use wirefinder.Daemon.Durability.{ReadsBack}
use wirefinder.Daemon.Durability.Requests.{handle-restart}
use wirefinder.Daemon.Status.{list_servers}
use wirefinder.Daemon.Handle.{handle}
use wirefinder.Tests.World.{toy, toy_codec, state_path, toy_wg, at_noon, fresh, home_spec}

-- A codec of one configuration.
abbrev only : Config → Codec
only cfg = record { encode = λ c. ok (lit "x"); decode = λ t. ok cfg }

abbrev one_added : Config
one_added = (add_server toy toy_codec state_path at_noon home_spec fresh).1.cfg

one_listed :
    (handle toy (only one_added) state_path toy_wg at_noon (Request.add_server home_spec) fresh).0
    ≡ Response.servers
        (list_servers toy toy_wg at_noon
          (add_server toy (only one_added) state_path at_noon home_spec fresh).1).0
unfolding handle list_servers add_server lit equal trim split_once parse_unsigned show_ℕ from_lookup
    resolve_endpoint or_cached endpoint_addr parse_address parse_addresses parse_allowed_ip
    parse_dns_entry parse_dns parse_named_key parse_preshared build_peer peer_endpoint
    validate_server traverse pure lift attempt raise ◌>>=◌ naming write_private directory
    create_parent sync_parent save rsplit_dot stem_of file_stem with_extension shown put next_fault
    call outcome settle touch opened open_truncate take append_to write_all rename named find_server
    replace_first upsert_server on_backend get_cfg set_cfg persist server_of commit
one_listed = refl

one_listed_reads :
    ReadsBack
      (only one_added)
      (handle toy
        (only one_added)
        state_path
        toy_wg
        at_noon
        (Request.add_server home_spec)
        fresh).1.cfg
unfolding handle list_servers add_server lit equal trim split_once parse_unsigned show_ℕ from_lookup
    resolve_endpoint or_cached endpoint_addr parse_address parse_addresses parse_allowed_ip
    parse_dns_entry parse_dns parse_named_key parse_preshared build_peer peer_endpoint
    validate_server traverse pure lift attempt raise ◌>>=◌ naming write_private directory
    create_parent sync_parent save rsplit_dot stem_of file_stem with_extension shown put next_fault
    call outcome settle touch opened open_truncate take append_to write_all rename named find_server
    replace_first upsert_server on_backend get_cfg set_cfg persist server_of commit
one_listed_reads text e = refl

handle-restart_example :
    restart
      (only one_added)
      state_path
      (handle toy
        (only one_added)
        state_path
        toy_wg
        at_noon
        (Request.add_server home_spec)
        fresh).1.disk.files
    ≡ ok
        (handle toy
          (only one_added)
          state_path
          toy_wg
          at_noon
          (Request.add_server home_spec)
          fresh).1.cfg
handle-restart_example =
    handle-restart toy (only one_added) state_path toy_wg at_noon (Request.add_server home_spec)
      fresh tt one_listed one_listed_reads
