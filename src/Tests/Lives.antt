-- ===== src/Tests/Lives.antt =====
-- The properties of the daemon over several requests and several lives at concrete inputs.
use wirefinder.Prelude.{
  ◌≡◌, refl, map, not, Bool, ◌&&◌, none, some, [], ◌∷◌, false, true, List, arith,
}
use wirefinder.Prelude.Lists.{retain, All}
use wirefinder.Text.{Text, lit, equal, trim}
use wirefinder.Result.{ok}
use wirefinder.External.{v4, IpAddrMask}
use wirefinder.Exec.{Exec, pure, lift, attempt, raise, ◌>>=◌}
use wirefinder.Proto.{Request, Response}
use wirefinder.Config.{default, find_server}
use wirefinder.Config.Store
use wirefinder.Config.Store.{directory}
use wirefinder.Config.Store.Fs.{next_fault, read_to_string, read_outcome, read_file, next_fault}
use wirefinder.Wireguard.Routes.{wants, sync_split_routes, mask_equal, install, prune, stale_routes}
use wirefinder.Daemon.State.{load}
use wirefinder.Daemon.Invariant.{default-IsConfigured, handle_all}
use wirefinder.Server.{Json}
use wirefinder.Server.Bind.{
  Site, Sudo, bind, bind_at, socket_path, lock_dir, act, acted, create_dir, set_dir_permissions,
  set_socket_permissions, removed, remove_file, listened, listen, chown_dir, chown_socket,
  invoking_user,
}
use wirefinder.Server.Bind.Locked.{
  IsLocked, IsReady, bind_at_safe, bind_at_returns, directory-socket_path,
}
use wirefinder.Main.{World, Surroundings, serving}
use wirefinder.Main
use wirefinder.Main.Start.{signalled, killed, ended, main-IsReady, ended-main_idle}
use wirefinder.Main.Lives.{live, IsRestorable, live-IsRestorable}
use wirefinder.Daemon.Directory.{IsRun}
use wirefinder.Daemon.Refinement.{Spares, handle_all-IsRun}
use wirefinder.Daemon.Invariant.{Traffic}
use wirefinder.Wireguard.Table.{IsTable, sync_split_routes_present, mask_equal_iff}
use wirefinder.Tests.Coding.{true_codec, true_codec-reads}
use wirefinder.Tests.World.{
  toy, toy_codec, state_path, toy_wg, at_noon, configured, home_spec, empty_disk, Up,
}

abbrev plain : Sudo
plain = record { uid = none; gid = none }

-- A former run left a socket open to all, in a directory open to all.
abbrev stale_site : Site
stale_site = record {
  dir = some (record { mode = 0o777; owner = none });
  socket = some (record { mode = 0o777; owner = none });
  bound = false;
  umask = 0o22;
  faults = [];
}

-- The mode of the socket cannot be set.
abbrev stuck_site : Site
stuck_site = record stale_site { faults = none ∷ none ∷ none ∷ none ∷ some (lit "denied") ∷ [] }

stuck_bound : (bind_at plain socket_path stuck_site).1.bound ≡ true
unfolding bind_at lock_dir act acted create_dir set_dir_permissions set_socket_permissions removed
    remove_file listened listen chown_dir chown_socket invoking_user directory lit pure lift attempt
    raise ◌>>=◌
stuck_bound = refl

bind_at_safe_example : IsLocked (bind_at plain socket_path stuck_site).1
bind_at_safe_example =
    bind_at_safe plain socket_path stuck_site directory-socket_path refl stuck_bound

bind_at_returns_example : (bind_at plain socket_path stale_site).0 ≡ ok tt
bind_at_returns_example = bind_at_returns plain socket_path stale_site refl

abbrev toy_json : Json
toy_json = record {
  encode_request = λ req. ok (lit "?");
  decode_request = λ t. ok (Request.add_server home_spec);
  encode_response = λ r. ok (lit "!");
  decode_response = λ t. ok Response.disconnected;
}

abbrev toy_world : World Up
toy_world = record { disk = empty_disk; backend = some 51820; site = stale_site }

abbrev one_client : Surroundings
one_client = record {
  sudo = plain;
  handler = ok tt;
  clients = (at_noon, record { received = ok (lit "?"); sent = ok tt }) ∷ [];
}

serves : (Main.main toy_json toy true_codec state_path toy_wg one_client toy_world).0 ≡ serving
unfolding Main.main load Store.load Store.loaded bind_at lock_dir act acted create_dir
    set_dir_permissions set_socket_permissions removed remove_file listened listen chown_dir
    chown_socket invoking_user directory bind lit pure lift attempt raise ◌>>=◌ next_fault
    read_to_string read_outcome read_file
serves = refl

main-IsReady_example :
    IsReady plain (Main.main toy_json toy true_codec state_path toy_wg one_client toy_world).1.site
main-IsReady_example =
    main-IsReady toy_json toy true_codec state_path toy_wg one_client toy_world refl serves

ended-main_idle_example :
    ((ended signalled (
        Main.main toy_json toy true_codec state_path toy_wg
          (record { sudo = plain; handler = ok tt; clients = [] })
          toy_world)).backend
      ≡ toy_world.backend)
    × ((ended signalled (
          Main.main toy_json toy true_codec state_path toy_wg
            (record { sudo = plain; handler = ok tt; clients = [] })
            toy_world)).disk.files
        ≡ toy_world.disk.files)
ended-main_idle_example =
    ended-main_idle toy_json toy true_codec state_path toy_wg plain (ok tt) signalled toy_world

empty-IsRestorable : IsRestorable toy_json toy true_codec state_path toy_wg toy_world.disk.files
unfolding Store.load Store.loaded lift ◌>>=◌ next_fault read_to_string read_outcome read_file
empty-IsRestorable = record {
  cfg = default;
  restores = refl;
  configured = default-IsConfigured toy;
}

live-IsRestorable_example :
    IsRestorable toy_json toy true_codec state_path toy_wg
      (live toy_json toy true_codec state_path toy_wg
        ((one_client, killed) ∷ (one_client, signalled) ∷ [])
        toy_world).disk.files
live-IsRestorable_example =
    live-IsRestorable toy_json toy true_codec state_path toy_wg (λ c h. true_codec-reads c)
      ((one_client, killed) ∷ (one_client, signalled) ∷ []) toy_world empty-IsRestorable

abbrev visit : Traffic
visit = (at_noon, Request.add_server home_spec) ∷ (at_noon, Request.switch_server (lit "home")) ∷ []

handle_all-IsRun_example :
    IsRun
      (map (λ p. p.1) visit)
      (find_server configured.cfg)
      (find_server (handle_all toy toy_codec state_path toy_wg visit configured).cfg)
handle_all-IsRun_example = handle_all-IsRun toy toy_codec state_path toy_wg visit configured

visit-Spares : All (Spares (lit "work")) (map (λ p. p.1) visit)
unfolding lit equal trim
visit-Spares = (refl, (refl, tt))

-- A table of routes as the list of what is installed.
change_table : Bool → IpAddrMask → List IpAddrMask → List IpAddrMask
change_table true p table = p ∷ table
change_table false p table = retain (λ q. not (mask_equal p q)) table

table_ip : Text → IpAddrMask → Exec (List IpAddrMask) (Unit {0})
unfolding change_table
table_ip action p table = (ok tt, change_table (equal action (lit "replace")) p table)

abbrev table_read : Exec (List IpAddrMask) (List IpAddrMask)
table_read table = (ok table, table)

wants-change_table :
    (p : IpAddrMask) (table : List IpAddrMask) (q : IpAddrMask)
    → wants (change_table false p table) q ≡ (not (mask_equal p q) && wants table q)
unfolding change_table
wants-change_table p [] q = ground arith
wants-change_table p (r ∷ table) q = ground (
  arith,
  wants-change_table p table q,
  mask_equal_iff p r,
  mask_equal_iff r q,
  mask_equal_iff p q,
)

toy-IsTable : IsTable table_ip table_read (λ table q. wants table q)
unfolding table_ip change_table lit equal
toy-IsTable = record {
  replaced = λ p s h q. refl;
  deleted = λ p s q. wants-change_table p s q;
  reads = λ s. (s, refl, λ q. refl);
}

abbrev lan : IpAddrMask
lan = record { address = v4 513; cidr = 24 }

abbrev old_lan : IpAddrMask
old_lan = record { address = v4 769; cidr = 24 }

synced : (sync_split_routes table_ip table_read (lan ∷ []) (old_lan ∷ [])).0 ≡ ok tt
unfolding sync_split_routes install prune stale_routes table_ip change_table lit equal pure lift
    attempt raise ◌>>=◌
synced = refl

sync_split_routes_present_example :
    wants (sync_split_routes table_ip table_read (lan ∷ []) (old_lan ∷ [])).1 old_lan
    ≡ wants (lan ∷ []) old_lan
sync_split_routes_present_example =
    sync_split_routes_present table_ip table_read (λ table q. wants table q) toy-IsTable (lan ∷ [])
      (old_lan ∷ []) synced old_lan
