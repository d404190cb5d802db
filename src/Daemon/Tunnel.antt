-- ===== src/Daemon/Tunnel.antt =====
-- The requests of daemon/src/daemon.rs that move the tunnel, and the connecting window.
use wirefinder.Proto.{alive, connecting, stale, never}
use wirefinder.Prelude.{
  ltb, ap, if◌then◌else◌, ℕ, ◌*◌, ◌^◌, ◌+◌, none, some, ◌≡◌, refl, inl, inr, Option-cases,
  Bool-cases, arith,
}
use wirefinder.Text.{Text}
use wirefinder.Result.{ok, err, Result-cases}
use wirefinder.External.{External, SocketAddr}
use wirefinder.Exec.{pure, attempt, lift, ◌>>=◌}
use wirefinder.Config.{ServerConfig, find_server}
use wirefinder.Config.Store.{Codec}
use wirefinder.Config.Store.Fs.{FilePath}
use wirefinder.Wireguard.{Wireguard}
use wirefinder.Daemon.State.{
  Moment, Daemon, on_backend, get_cfg, set_cfg, set_last_connect, persist, is_connecting,
  connecting_window, derive_state,
}
use wirefinder.Daemon.Handle.{switch_server, disconnect, refresh, save_cache, is_outdated}

module _ (codec : Codec) (path : FilePath) {S : Type 0} where
  -- The cache of an endpoint is kept up to date best-effort, and touches nothing of the tunnel.
  refresh_quiet :
      (name addr : Text) (d : Daemon S)
      → let (r, t) = refresh codec path name addr d in
        (r ≡ ok tt) × (t.backend ≡ d.backend) × (t.last_connect ≡ d.last_connect)
  unfolding refresh save_cache ◌>>=◌ get_cfg set_cfg persist attempt pure
  refresh_quiet name addr d = elim (Bool-cases (is_outdated name addr d.cfg)) [
    | inl old ↦ rw old (refl, refl, refl)
    | inr now ↦ rw now (refl, refl, refl)
  ]

module _ (x : External) (codec : Codec) (path : FilePath) {S : Type 0} (wg : Wireguard S) where
  pub record IsSwitched (m : Moment) (name : Text) (d t : Daemon S) : Type 0 where
    pub server : ServerConfig
    pub endpoint : SocketAddr
    pub there : find_server d.cfg name ≡ some server
    pub moved : (wg.switch m.resolve server d.backend).0 ≡ ok endpoint
    pub backend : t.backend ≡ (wg.switch m.resolve server d.backend).1
    pub since : t.last_connect ≡ some m.instant

  -- A switch that returns has found the named server, has switched the backend to it, and has opened
  -- the connecting window at its moment.
  pub switch_server_ok :
      (m : Moment) (name : Text) (d : Daemon S)
      → (switch_server x codec path wg m name d).0 ≡ ok tt
      → IsSwitched m name d (switch_server x codec path wg m name d).1
  unfolding switch_server ◌>>=◌ get_cfg on_backend set_last_connect lift
  switch_server_ok m name d = elim (Option-cases (find_server d.cfg name)) [
    | inl missing ↦ rw missing λ h. absurd (cc h)
    | inr (s, there) ↦ elim (Result-cases (wg.switch m.resolve s d.backend).0) [
      | inr (e, bad) ↦ rw (there, bad) λ h. absurd (cc h)
      | inl (addr, good) ↦
          rw (there, good)
            λ h.
              let (_, same_backend, same_time) =
                refresh_quiet codec path name (x.show_socket_addr addr) _ in
              record {
                server = s;
                endpoint = addr;
                there = there;
                moved = good;
                backend = same_backend;
                since = same_time;
              }
    ]
  ]

  -- A switch to a stored server that the backend switches to returns, though the cache of its
  -- endpoint may fail to be saved.
  pub switch_server_returns :
      (m : Moment) (name : Text) (d : Daemon S) (s : ServerConfig) (addr : SocketAddr)
      → find_server d.cfg name ≡ some s
      → (wg.switch m.resolve s d.backend).0 ≡ ok addr
      → (switch_server x codec path wg m name d).0 ≡ ok tt
  unfolding switch_server ◌>>=◌ get_cfg on_backend set_last_connect lift
  switch_server_returns m name d s addr there good =
      rw (there, good) (refresh_quiet codec path name (x.show_socket_addr addr) _).0

-- A disconnect that returns closes the connecting window; one that fails leaves it as it was.
pub disconnect_window :
    {S : Type 0} (wg : Wireguard S) (d : Daemon S)
    → let (r, t) = disconnect wg d in
      (r ≡ (wg.disconnect d.backend).0)
      × (t.last_connect ≡ elim r [ ok _ ↦ none | err _ ↦ d.last_connect ])
unfolding disconnect ◌>>=◌ on_backend set_last_connect
disconnect_window wg d = elim (Result-cases (wg.disconnect d.backend).0) [
  | inl (a, e) ↦ rw e (refl, refl)
  | inr (e, bad) ↦ rw bad (refl, refl)
]

window_is :
    {S : Type 0} (m : Moment) (d : Daemon S) (t : ℕ)
    → d.last_connect ≡ some t
    → is_connecting m d ≡ ltb m.instant (t + connecting_window)
unfolding is_connecting
window_is m d t e = rw e (ground arith)

module _ (x : External) (codec : Codec) (path : FilePath) {S : Type 0} (wg : Wireguard S) where
  -- After a switch that returns, the state derived for a peer without a handshake is connecting for
  -- the fifteen seconds that follow it, and never from then on; that of a peer with a handshake is by
  -- the age of the handshake alone.
  pub switch_server_window :
      (m later : Moment) (name : Text) (d : Daemon S)
      → (switch_server x codec path wg m name d).0 ≡ ok tt
      → let window = is_connecting later (switch_server x codec path wg m name d).1 in
        (derive_state none window
          ≡ (if ltb later.instant (m.instant + 15 * 10 ^ 9) then connecting else never))
        × ((age : ℕ) → derive_state (some age) window ≡ (if ltb age 180 then alive else stale))
  unfolding derive_state
  switch_server_window m later name d h =
      let opened =
        window_is later _ m.instant (switch_server_ok x codec path wg m name d h).since in
      (ap (λ b. if b then connecting else never) opened, λ age. refl)
