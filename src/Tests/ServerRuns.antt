-- ===== src/Tests/ServerRuns.antt =====
-- The tests of daemon/src/server.rs, by name.
use wirefinder.Prelude.{
  Bool, true, false, ◌&&◌, ◌==◌, ◌≡◌, refl, none, some, [], ◌∷◌, if◌then◌else◌,
}
use wirefinder.Config.Store.Fs.{FilePath}
use wirefinder.Text.{Text, lit, equal, starts_with}
use wirefinder.Result.{Result, ok, err, is_ok}
use wirefinder.Exec.{pure, lift, attempt, raise, ◌>>=◌}
use wirefinder.Proto.{Request, Response}
use wirefinder.Config.Store.{directory}
use wirefinder.Server.{Json, dispatch}
use wirefinder.Server.Bind.{
  Node, Site, Sudo, acted, act, create_dir, set_dir_permissions, set_socket_permissions, removed,
  remove_file, listened, listen, invoking_user, chown_dir, chown_socket, lock_dir, bind_at,
}
use wirefinder.Daemon.Status.{list_servers, list_one, listed}
use wirefinder.Daemon.Handle.{handle}
use wirefinder.Tests.Assert.{all}
use wirefinder.Tests.Sample.{sample}
use wirefinder.Tests.FakeWireguard.{
  fake, fresh_daemon, now, listing, of_some, write_only, temp_path,
}

-- `serde_json` at one request
abbrev read_list : Text → Result Request
read_list t =
    if equal t (lit "{\"ListServers\":{}}\n")
    then ok (Request.list_servers none)
    else err (lit "expected value")

abbrev lists_only : Json
lists_only = record {
  encode_request = λ req. err (lit "unused");
  decode_request = read_list;
  encode_response = λ r. err (lit "unused");
  decode_response = λ t. err (lit "unused");
}

abbrev starts_error : Text → Response → Bool
starts_error part (Response.error e) = starts_with e part
starts_error part _ = false

abbrev no_sudo : Sudo
no_sudo = record { uid = none; gid = none }

abbrev no_site : Site
no_site = record { dir = none; socket = none; bound = false; umask = 0o22; faults = [] }

-- A temporary directory that is there.
abbrev temp_site : Site
temp_site = record no_site { dir = some (record { mode = 0o700; owner = none }) }

abbrev run_path : FilePath
run_path = record { parent = some (lit "/tmp/wirefinder/run"); file_name = lit "wirefinderd.sock" }

abbrev sock_path : FilePath
sock_path = record { parent = some (lit "/tmp/wirefinder"); file_name = lit "wirefinderd.sock" }

abbrev malformed_request_becomes_a_tidy_error_not_a_dropped_connection : Bool
malformed_request_becomes_a_tidy_error_not_a_dropped_connection =
    starts_error (lit "bad request:")
      (dispatch lists_only sample write_only temp_path fake now (lit "this is not json\n")
        fresh_daemon).0

abbrev a_valid_request_line_is_dispatched : Bool
a_valid_request_line_is_dispatched =
    listing (λ list. true)
      (dispatch lists_only sample write_only temp_path fake now (lit "{\"ListServers\":{}}\n")
        fresh_daemon).0

abbrev bind_locks_down_the_socket_directory_and_socket : Bool
bind_locks_down_the_socket_directory_and_socket =
    let (r, s) = bind_at no_sudo run_path no_site in
    all (
      is_ok r
      ∷ of_some (λ (n : Node). n.mode == 0o750) s.dir
      ∷ of_some (λ (n : Node). n.mode == 0o660) s.socket
      ∷ [])

abbrev bind_replaces_a_stale_socket : Bool
bind_replaces_a_stale_socket =
    let (r, s) = bind_at no_sudo sock_path temp_site in
    let (again, t) = bind_at no_sudo sock_path (record s { bound = false }) in
    is_ok r && is_ok again

-- Every test passes.
server_runs_pass :
    all (
      malformed_request_becomes_a_tidy_error_not_a_dropped_connection
      ∷ a_valid_request_line_is_dispatched ∷ bind_locks_down_the_socket_directory_and_socket
      ∷ bind_replaces_a_stale_socket ∷ [])
    ≡ true
unfolding lit equal starts_with pure lift attempt raise ◌>>=◌ dispatch handle list_servers list_one
    listed fake directory acted act create_dir set_dir_permissions set_socket_permissions removed
    remove_file listened listen invoking_user chown_dir chown_socket lock_dir bind_at
server_runs_pass = refl
