-- ===== src/Daemon/Status.antt =====
-- The requests that read the interface: the list of servers and the status.
use wirefinder.Prelude.{
  ℕ, Bool, false, Option, none, some, List, ◌++◌, map, and_then, if◌then◌else◌,
}
use wirefinder.Prelude.Lists.{find}
use wirefinder.Text.{lit, equal}
use wirefinder.Result.{Result, ok, err, map_ok, to_option}
use wirefinder.External.{External}
use wirefinder.Proto.{ServerInfo, PeerStatus, InterfaceStatus}
use wirefinder.Config
use wirefinder.Config.{ServerConfig}
use wirefinder.Wireguard.{LivePeer, LiveInterface, Wireguard}
use wirefinder.Daemon.State.{Moment, Daemon, is_connecting, derive_state, handshake_age}
use wirefinder.Daemon.Servers.{is_key}

unfoldable pub peer_age : Moment → Option LiveInterface → ServerConfig → Option ℕ
peer_age m live s =
    and_then (and_then live (λ l. find (λ p. equal p.public_key s.public_key) l.peers))
      (handshake_age m.system_time)

peer_status : Moment → Bool → LivePeer → PeerStatus
peer_status m connecting? p =
    let age = handshake_age m.system_time p in
    record {
      public_key = p.public_key;
      endpoint = p.endpoint;
      allowed_ips = p.allowed_ips;
      state = derive_state age connecting?;
      handshake_age_secs = age;
      rx_bytes = p.rx_bytes;
      tx_bytes = p.tx_bytes;
    }

unfoldable pub status_of : Moment → Bool → LiveInterface → InterfaceStatus
unfolding peer_status
status_of m connecting? live = record {
  name = live.name;
  listen_port = live.listen_port;
  peers = map (peer_status m connecting?) live.peers;
}

-- The placeholder of a server whose stored key no longer parses.
abbrev pub or_placeholder : ServerConfig → Result ServerInfo → ServerInfo
or_placeholder s (ok info) = info
or_placeholder s (err e) = record {
  name = s.name;
  endpoint = s.endpoint;
  addresses = s.addresses;
  public_key = lit "(unavailable: " ++ (e ++ lit ")");
  active = false;
  state = none;
}

module _ (x : External) where
  unfoldable pub listed : ServerConfig → ServerInfo
  listed s = or_placeholder s (Config.info x s false)

  -- One server of the list, from the one snapshot of the interface.
  unfoldable pub list_one : Moment → Option LiveInterface → Bool → ServerConfig → ServerInfo
  unfolding listed
  list_one m live connecting? s =
      let info = listed s in
      let active = is_key (and_then live (λ l. l.public_key)) info.public_key in
      record info {
        active = active;
        state = if active then some (derive_state (peer_age m live s) connecting?) else info.state;
      }

module _ (x : External) {S : Type 0} (wg : Wireguard S) where
  -- The interface is read once for the whole list.
  unfoldable pub list_servers : Moment → Daemon S → List ServerInfo × Daemon S
  unfolding list_one
  list_servers m d =
      let (live, s) = wg.status d.backend in
      let infos = map (list_one x m (to_option live) (is_connecting m d)) d.cfg.servers in
      (infos, record d { backend = s })

module _ {S : Type 0} (wg : Wireguard S) where
  unfoldable pub read_status : Moment → Daemon S → Result InterfaceStatus × Daemon S
  unfolding status_of
  read_status m d =
      let (live, s) = wg.status d.backend in
      (map_ok (status_of m (is_connecting m d)) live, record d { backend = s })
