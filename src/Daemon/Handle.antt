-- ===== src/Daemon/Handle.antt =====
-- The requests that move the tunnel, and the dispatch of every request.
use wirefinder.Prelude.{Bool, false, not, Option, none, some, List, [], ◌∷◌, if◌then◌else◌}
use wirefinder.Prelude.Lists.{retain}
use wirefinder.Text.{Text}
use wirefinder.Result.{Result, ok, err, ok_or}
use wirefinder.External.{External}
use wirefinder.Exec.{Exec, pure, lift, attempt, ◌>>=◌, ◌>>◌}
use wirefinder.Proto.{Request, Response, ServerInfo, InterfaceStatus, matches}
use wirefinder.Config.{ServerConfig, Config, named, find_server}
use wirefinder.Config.Store.{Codec}
use wirefinder.Config.Store.Fs.{FilePath}
use wirefinder.Wireguard.{Wireguard}
use wirefinder.Daemon.State.{
  Moment, Daemon, on_backend, get_cfg, set_cfg, set_last_connect, persist,
}
use wirefinder.Daemon.Servers.{
  is_key, unknown, get_server, add_server, import_server, remove_server, edit_server,
}
use wirefinder.Daemon.Status.{list_servers, read_status}

-- `servers.iter_mut().find(|s| s.name == name)`, with the write of its cached endpoint
unfoldable pub cache_endpoint : Text → Text → List ServerConfig → List ServerConfig
cache_endpoint name addr [] = []
cache_endpoint name addr (s ∷ ss) =
    let rest = cache_endpoint name addr ss in
    if named name s then record s { resolved_endpoint = some addr } ∷ ss else s ∷ rest

-- The named server's cache differs from the address in use.
unfoldable pub is_outdated : Text → Text → Config → Bool
is_outdated name addr cfg = elim (find_server cfg name) [
  | none ↦ false
  | some s ↦ not (is_key s.resolved_endpoint addr)
]

module _ (codec : Codec) (path : FilePath) {S : Type 0} where
  -- A failed persist is only logged.
  unfoldable pub save_cache : Text → Text → Config → Exec (Daemon S) (Unit {0})
  save_cache name addr cfg = do
    set_cfg (record { servers = cache_endpoint name addr cfg.servers })
    attempt (persist codec path)
    pure tt

  -- After a switch: the cache follows the address in use.
  unfoldable pub refresh : Text → Text → Exec (Daemon S) (Unit {0})
  refresh name addr = do
    cfg ← get_cfg
    if is_outdated name addr cfg then save_cache name addr cfg else pure tt

module _ (x : External) (codec : Codec) (path : FilePath) {S : Type 0} (wg : Wireguard S) where
  unfoldable pub switch_server : Moment → Text → Exec (Daemon S) (Unit {0})
  switch_server m name = do
    cfg ← get_cfg
    server ← lift (ok_or (find_server cfg name) (unknown name))
    endpoint ← on_backend (wg.switch m.resolve server)
    set_last_connect (some m.instant)
    refresh codec path name (x.show_socket_addr endpoint)

unfoldable pub disconnect : {S : Type 0} → Wireguard S → Exec (Daemon S) (Unit {0})
disconnect wg = do on_backend wg.disconnect; set_last_connect none

abbrev pub reply {ℓ} : {A : Type ℓ} → (A → Response) → Result A → Response
reply f (ok a) = f a
reply f (err e) = Response.error e

abbrev pub respond {ℓ κ} : {A : Type ℓ} {D : Type κ} → (A → Response) → Result A × D → Response × D
respond f (r, d) = (reply f r, d)

-- `Err` of a status is no error: there is no interface.
abbrev pub status_response {ℓ} : {D : Type ℓ} → Result InterfaceStatus × D → Response × D
status_response (ok live, d) = (Response.status live, d)
status_response (err _, d) = (Response.disconnected, d)

module _ (x : External) where
  abbrev pub filtered : Option Text → List ServerInfo → List ServerInfo
  filtered none infos = infos
  filtered (some q) infos = retain (λ s. matches x.to_lowercase s q) infos

  abbrev pub list_response {ℓ} : {D : Type ℓ} → Option Text → List ServerInfo × D → Response × D
  list_response query (infos, d) = (Response.servers (filtered query infos), d)

module _ (x : External) {S : Type 0} (wg : Wireguard S) where
  -- The whole list after a change that went well.
  abbrev pub then_list : Moment → Result (Unit {0}) × Daemon S → Response × Daemon S
  then_list m (ok _, d) = list_response x none (list_servers x wg m d)
  then_list m (err e, d) = (Response.error e, d)

module _ (x : External) (codec : Codec) (path : FilePath) {S : Type 0} (wg : Wireguard S) where
  unfoldable pub handle : Moment → Request → Daemon S → Response × Daemon S
  handle m Request.status d = status_response (read_status wg m d)
  handle m (Request.list_servers query) d = list_response x query (list_servers x wg m d)
  handle m (Request.get_server name) d = (reply Response.server_detail (get_server name d.cfg), d)
  handle m (Request.add_server server) d = then_list x wg m (add_server x codec path m server d)
  handle m (Request.edit_server server) d =
      then_list x wg m (edit_server x codec path wg m server d)
  handle m (Request.import_server name conf) d =
      then_list x wg m (import_server x codec path m name conf d)
  handle m (Request.remove_server name) d = then_list x wg m (remove_server codec path name d)
  handle m (Request.switch_server name) d =
      respond (λ _. Response.switched name) (switch_server x codec path wg m name d)
  handle m Request.disconnect d = respond (λ _. Response.disconnected) (disconnect wg d)
