-- ===== src/Tests/FakeWireguard.antt =====
-- `FakeWireguard` and the helpers of the tests of daemon/src/daemon.rs.
use wirefinder.Prelude.{◌^◌, Bool, true, false, Option, none, some, List, [], ◌∷◌, ◌++◌, map}
use wirefinder.Prelude.Lists.{find}
use wirefinder.Text.{Text, lit, equal, contains}
use wirefinder.Result.{Result, ok, err}
use wirefinder.External.{SocketAddr, SystemTime}
use wirefinder.Exec.{Exec}
use wirefinder.Keys
use wirefinder.Proto.{
  Request, Response, ServerSpec, ServerInfo, ServerDetail, InterfaceStatus, PeerStatus, ConnState,
  alive, connecting, stale, never,
}
use wirefinder.Config.{ServerConfig, default}
use wirefinder.Config.Store.{Codec}
use wirefinder.Config.Store.Fs.{FilePath}
use wirefinder.Wireguard.{LiveInterface, Wireguard}
use wirefinder.Daemon.State.{Moment, Daemon}
use wirefinder.Daemon.Handle.{handle}
use wirefinder.Tests.Sample.{sample, generated_key, peer_key, unasked}

pub record FakePeer : Type 0 where
  pub public_key : Text
  pub last_handshake : Option SystemTime

pub record FakeWireguard : Type 0 where
  pub calls : List Text
  pub live_peers : Option (List FakePeer)
  pub last_switch_addresses : List Text
  pub live_pubkey : Option Text
  pub fail_with : Option Text

-- `check_fail` takes the error that was set.
abbrev check_fail : Option Text → Result (Unit {0})
check_fail (some e) = err e
check_fail none = ok tt

abbrev fake_down : FakeWireguard → Result (Unit {0}) → Result (Unit {0}) × FakeWireguard
fake_down wg (err e) = (err e, wg)
fake_down wg (ok _) = (ok tt, record wg { live_peers = none; live_pubkey = none })

abbrev fake_disconnect : Exec FakeWireguard (Unit {0})
fake_disconnect wg =
    fake_down (record wg { calls = wg.calls ++ lit "disconnect" ∷ []; fail_with = none })
      (check_fail wg.fail_with)

-- The `unwrap` of a key that does not parse is a panic.
abbrev fake_up : ServerConfig → FakeWireguard → Result Text → Result SocketAddr × FakeWireguard
fake_up server wg (err e) = (err (lit "panic: " ++ e), wg)
fake_up server wg (ok key) = (
  sample.parse_socket_addr server.endpoint,
  record wg {
    live_pubkey = some key;
    live_peers = some (record { public_key = server.public_key; last_handshake = none } ∷ []);
  },
)

abbrev fake_checked :
    ServerConfig → FakeWireguard → Result (Unit {0}) → Result SocketAddr × FakeWireguard
fake_checked server wg (err e) = (err e, wg)
fake_checked server wg (ok _) = fake_up server wg (Keys.public_key sample server.private_key)

abbrev fake_switch : ServerConfig → Exec FakeWireguard SocketAddr
fake_switch server wg =
    fake_checked server
      (record wg {
        calls = wg.calls ++ (lit "switch:" ++ server.name) ∷ [];
        last_switch_addresses = server.addresses;
        fail_with = none;
      })
      (check_fail wg.fail_with)

abbrev fake_live : Option Text → Option (List FakePeer) → Result LiveInterface
fake_live key none = err (lit "interface down")
fake_live key (some peers) = ok (record {
  name = lit "wg0";
  public_key = key;
  listen_port = 51820;
  peers =
      map
        (λ (p : FakePeer). record {
          public_key = p.public_key;
          endpoint = some (lit "198.51.100.10:51820");
          allowed_ips = lit "0.0.0.0/0" ∷ [];
          last_handshake = p.last_handshake;
          rx_bytes = 100;
          tx_bytes = 200;
        })
        peers;
})

unfoldable pub fake : Wireguard FakeWireguard
fake = record {
  disconnect = fake_disconnect;
  switch = λ resolve server. fake_switch server;
  status = λ wg. (fake_live wg.live_pubkey wg.live_peers, wg);
}

abbrev pub server : Text → ServerSpec
server name = record {
  name = name;
  private_key = none;
  public_key = peer_key;
  endpoint = lit "198.51.100.10:51820";
  addresses = lit "10.0.0.2/24" ∷ [];
  allowed_ips = lit "0.0.0.0/0" ∷ [];
  listen_port = none;
  mtu = none;
  keepalive = some 25;
  preshared_key = none;
  dns = [];
}

-- The state file is written and never read back by these tests.
abbrev pub write_only : Codec
write_only = record { encode = λ c. ok (lit "{}"); decode = λ t. err (lit "unread") }

abbrev pub temp_path : FilePath
temp_path = record { parent = some (lit "/tmp/wirefinder"); file_name = lit "state.json" }

abbrev pub fresh_daemon : Daemon FakeWireguard
fresh_daemon = record {
  disk = record { files = λ name. none; faults = [] };
  cfg = default;
  backend = record {
    calls = [];
    live_peers = none;
    last_switch_addresses = [];
    live_pubkey = none;
    fail_with = none;
  };
  last_connect = none;
}

-- The clocks at one moment; a key is generated afresh each time.
abbrev pub at_hand : Text → Moment
at_hand key = record {
  instant = 10 ^ 12;
  system_time = 10 ^ 18;
  generated = key;
  resolve = unasked;
}

abbrev pub now : Moment
now = at_hand generated_key

abbrev pub ask : Request → Daemon FakeWireguard → Response × Daemon FakeWireguard
ask req d = handle sample write_only temp_path fake now req d

abbrev pub tell : Moment → Request → Daemon FakeWireguard → Daemon FakeWireguard
tell m req d = (handle sample write_only temp_path fake m req d).1

abbrev pub onboarded : Daemon FakeWireguard
onboarded = tell now (Request.add_server (server (lit "nexus"))) fresh_daemon

abbrev pub error_has : Text → Response → Bool
error_has part (Response.error e) = contains e part
error_has part _ = false

abbrev pub listing : (List ServerInfo → Bool) → Response → Bool
listing p (Response.servers list) = p list
listing p _ = false

abbrev pub detailing : (ServerDetail → Bool) → Response → Bool
detailing p (Response.server_detail det) = p det
detailing p _ = false

abbrev pub reporting : (InterfaceStatus → Bool) → Response → Bool
reporting p (Response.status s) = p s
reporting p _ = false

abbrev pub is_disconnected : Response → Bool
is_disconnected Response.disconnected = true
is_disconnected _ = false

abbrev pub is_switched : Text → Response → Bool
is_switched name (Response.switched n) = equal n name
is_switched name _ = false

module _ {A : Type 0} where
  -- What holds of the element at index 0
  abbrev pub first : (A → Bool) → List A → Bool
  first p [] = false
  first p (a ∷ rest) = p a

  abbrev pub of_some : (A → Bool) → Option A → Bool
  of_some p none = false
  of_some p (some a) = p a

abbrev pub same_state : ConnState → ConnState → Bool
same_state alive alive = true
same_state connecting connecting = true
same_state stale stale = true
same_state never never = true
same_state _ _ = false

-- What holds of the listed server of a name
abbrev pub entry_of : Text → (ServerInfo → Bool) → List ServerInfo → Bool
entry_of name p list = of_some p (find (λ s. equal s.name name) list)

abbrev pub servers_hold : (List ServerInfo → Bool) → Daemon FakeWireguard → Bool
servers_hold p d = listing p (ask (Request.list_servers none) d).0

abbrev pub peers_first : (PeerStatus → Bool) → Daemon FakeWireguard → Bool
peers_first p d = reporting (λ s. first p s.peers) (ask Request.status d).0

-- `*d.wg.live_peers = Some(peers)`, and the like for the error
abbrev pub set_live : Option SystemTime → Daemon FakeWireguard → Daemon FakeWireguard
set_live handshake d = record d {
  backend = record d.backend {
    live_peers = some (record { public_key = peer_key; last_handshake = handshake } ∷ []);
  };
}

abbrev pub set_fail : Text → Daemon FakeWireguard → Daemon FakeWireguard
set_fail e d = record d { backend = record d.backend { fail_with = some e } }

abbrev pub other_key : Text
other_key = lit "9Lk8eE7y0W1fM4QbC9VdT2uXw6rZaPsLhGnKoYiR5Uk="

-- `keys::public_key(…).unwrap() == key`
abbrev pub same_result : Result Text → Text → Bool
same_result (ok k) key = equal k key
same_result (err e) key = false
