-- ===== src/Daemon/Changes.antt =====
-- What a request can do to the configured servers: an edit that it allows, whatever its outcome.
use wirefinder.Prelude.{
  Bool, true, false, Option, some, ◌≡◌, refl, inl, inr, Bool-cases, Option-cases, if◌then◌else◌,
}
use wirefinder.Prelude.Lists.{is_empty}
use wirefinder.Text.{Text, trim}
use wirefinder.Text.Trimming.{trim-trim}
use wirefinder.Result.{Result, ok, err, Result-cases}
use wirefinder.External.{External}
use wirefinder.Exec.{raise, ◌>>=◌}
use wirefinder.Keys
use wirefinder.Proto.{Request, ServerSpec, InterfaceStatus}
use wirefinder.WgConf
use wirefinder.Config
use wirefinder.Config.{ServerConfig, Config, find_server, upsert_server}
use wirefinder.Config.Store.{Codec}
use wirefinder.Config.Store.Fs.{FilePath}
use wirefinder.Wireguard.{Wireguard}
use wirefinder.Wireguard.Validate.{validate_server}
use wirefinder.Wireguard.Sound.{IsSound, validate_server-IsSound, IsSound-resolved_endpoint}
use wirefinder.Daemon.Directory.{Edit, keep, put, drop, touch, Puts, Drops, Touches, Allows}
use wirefinder.Daemon.State.{
  Moment, Daemon, on_backend, get_cfg, set_cfg, set_last_connect, persist,
}
use wirefinder.Daemon.Servers.{
  spec_of, server_of, edited, commit, add_server, import_server, remove_server, edit_server,
  active_public_key, refused,
}
use wirefinder.Daemon.Status.{list_servers, read_status}
use wirefinder.Daemon.Handle.{
  cache_endpoint, is_outdated, save_cache, refresh, switch_server, disconnect, handle, then_list,
  status_response,
}

-- The name of a stored server is not blank and has no white space around it.
pub record IsNamed (s : ServerConfig) : Type 0 where
  pub not_blank : is_empty s.name ≡ false
  pub trimmed : trim s.name ≡ s.name

server_of-IsNamed :
    (spec : ServerSpec) (key : Text) (psk : Option Text)
    → is_empty (trim spec.name) ≡ false
    → IsNamed (server_of spec key psk)
unfolding server_of
server_of-IsNamed spec key psk h = record { not_blank = h; trimmed = trim-trim spec.name }

server_of-name :
    (spec : ServerSpec) (key : Text) (psk : Option Text)
    → (server_of spec key psk).name ≡ trim spec.name
unfolding server_of
server_of-name spec key psk = refl

module _ (x : External) where
  -- `P` says which edits are allowed.
  pub data Change (P : Edit → Type 0) (c c' : Config) : Type 0 where
    same : P keep → c' ≡ c → Change P c c'
    stored :
        (s : ServerConfig)
        → P (put s)
        → IsSound x s
        → IsNamed s
        → c' ≡ (upsert_server c s).0
        → Change P c c'
    removed : (name : Text) → P (drop name) → c' ≡ (Config.remove_server c name).0 → Change P c c'
    refreshed :
        (name addr : Text)
        → P (touch name addr)
        → c' ≡ record { servers = cache_endpoint name addr c.servers }
        → Change P c c'

module _ (x : External) (codec : Codec) (path : FilePath) {S : Type 0} where
  persist-cfg : (d : Daemon S) → (persist codec path d).1.cfg ≡ d.cfg
  unfolding persist
  persist-cfg d = refl

  commit-Change :
      (n : Text) (m : Moment) (s : ServerConfig) (d : Daemon S)
      → s.name ≡ n
      → IsNamed s
      → Change x (Puts n) d.cfg (commit x codec path m s d).1.cfg
  unfolding commit ◌>>=◌ get_cfg set_cfg persist
  commit-Change name m s d here n = elim (Result-cases (validate_server x m.resolve s)) [
    | inl (addr, e) ↦ rw e (
        stored (record s { resolved_endpoint = some (x.show_socket_addr addr) }) here
          (IsSound-resolved_endpoint x s _ (validate_server-IsSound x m.resolve s e).0)
          (record { not_blank = n.not_blank; trimmed = n.trimmed }) refl)
    | inr (e, p) ↦ rw p (same tt refl)
  ]

  -- A refusal, or a commit.
  unless-Change :
      (n : Text) (refuse : Bool) (e : Text) (m : Moment) (s : ServerConfig) (d : Daemon S)
      → s.name ≡ n
      → IsNamed s
      → Change x (Puts n) d.cfg ((if refuse then raise e else commit x codec path m s) d).1.cfg
  unfolding raise
  unless-Change name true e m s d here n = same tt refl
  unless-Change name false e m s d here n = commit-Change name m s d here n

  add_server-Change :
      (m : Moment) (spec : ServerSpec) (d : Daemon S)
      → Change x (Puts (trim spec.name)) d.cfg (add_server x codec path m spec d).1.cfg
  unfolding add_server raise
  add_server-Change m spec d = elim (Bool-cases (is_empty (trim spec.name))) [
    | inl blank ↦ rw blank (same tt refl)
    | inr fine ↦
        rw fine (commit-Change _ m _ d (server_of-name spec _ _) (server_of-IsNamed spec _ _ fine))
  ]

  import_server-Change :
      (m : Moment) (name conf : Text) (d : Daemon S)
      → Change x (Puts (trim name)) d.cfg (import_server x codec path m name conf d).1.cfg
  unfolding import_server ◌>>=◌ spec_of
  import_server-Change m name conf d = elim (Result-cases (WgConf.parse conf)) [
    | inl (parsed, e) ↦ rw e (add_server-Change m (spec_of name parsed) d)
    | inr (e, p) ↦ rw p (same tt refl)
  ]

  remove_server-Change :
      (name : Text) (d : Daemon S)
      → Change x (Drops name) d.cfg (remove_server codec path name d).1.cfg
  unfolding remove_server ◌>>=◌ get_cfg set_cfg persist
  remove_server-Change name d = elim (Bool-cases (Config.remove_server d.cfg name).1) [
    | inl found ↦ rw found (removed name refl refl)
    | inr missing ↦ rw missing (removed name refl refl)
  ]

  refresh-Change :
      (name addr : Text) (d : Daemon S)
      → Change x (Touches name) d.cfg (refresh codec path name addr d).1.cfg
  unfolding refresh save_cache ◌>>=◌ get_cfg set_cfg persist
  refresh-Change name addr d = elim (Bool-cases (is_outdated name addr d.cfg)) [
    | inl old ↦ rw old (refreshed name addr refl refl)
    | inr fresh ↦ rw fresh (same tt refl)
  ]

module _ (x : External) (codec : Codec) (path : FilePath) {S : Type 0} (wg : Wireguard S) where
  edit_server-Change :
      (m : Moment) (spec : ServerSpec) (d : Daemon S)
      → Change x (Puts (trim spec.name)) d.cfg (edit_server x codec path wg m spec d).1.cfg
  unfolding edit_server edited ◌>>=◌ get_cfg active_public_key on_backend
  edit_server-Change m spec d = elim (Bool-cases (is_empty (trim spec.name))) [
    | inl blank ↦ rw blank (same tt refl)
    | inr fine ↦ elim (Option-cases (find_server d.cfg (trim spec.name))) [
      | inl missing ↦ rw (fine, missing) (same tt refl)
      | inr (s, found) ↦ elim (Result-cases (Keys.public_key x s.private_key)) [
        | inr (e, bad) ↦ rw (fine, found, bad) (same tt refl)
        | inl (key, good) ↦
            rw (fine, found, good)
              (unless-Change x codec path _ _ (refused (trim spec.name)) m (edited spec s) _
                (server_of-name spec _ _) (server_of-IsNamed spec _ _ fine))
      ]
    ]
  ]

  pub switch_server-Change :
      (m : Moment) (name : Text) (d : Daemon S)
      → Change x (Touches name) d.cfg (switch_server x codec path wg m name d).1.cfg
  unfolding switch_server ◌>>=◌ get_cfg on_backend set_last_connect
  switch_server-Change m name d = elim (Option-cases (find_server d.cfg name)) [
    | inl missing ↦ rw missing (same tt refl)
    | inr (s, found) ↦ elim (Result-cases (wg.switch m.resolve s d.backend).0) [
      | inr (e, bad) ↦ rw (found, bad) (same tt refl)
      | inl (addr, good) ↦
          rw (found, good) (refresh-Change x codec path name (x.show_socket_addr addr) _)
    ]
  ]

  then_list-cfg :
      (m : Moment) (r : Result (Unit {0}) × Daemon S) → (then_list x wg m r).1.cfg ≡ r.1.cfg
  unfolding list_servers
  then_list-cfg m (ok _, d) = refl
  then_list-cfg m (err e, d) = refl

  status_response-cfg :
      (r : Result InterfaceStatus × Daemon S) → (status_response r).1.cfg ≡ r.1.cfg
  status_response-cfg (ok live, d) = refl
  status_response-cfg (err e, d) = refl

  disconnect-cfg : (d : Daemon S) → (disconnect wg d).1.cfg ≡ d.cfg
  unfolding disconnect ◌>>=◌ on_backend set_last_connect
  disconnect-cfg d = elim (Result-cases (wg.disconnect d.backend).0) [
    | inl (a, e) ↦ rw e
    | inr (a, e) ↦ rw e
  ]

  -- Every request makes an edit that it allows to the configured servers.
  pub handle-Change :
      (m : Moment) (req : Request) (d : Daemon S)
      → Change x (Allows req) d.cfg (handle x codec path wg m req d).1.cfg
  unfolding handle list_servers read_status
  handle-Change m Request.status d = same tt (status_response-cfg (read_status wg m d))
  handle-Change m (Request.list_servers q) d = same tt refl
  handle-Change m (Request.get_server name) d = same tt refl
  handle-Change m (Request.add_server spec) d =
      rw then_list-cfg (add_server-Change x codec path m spec d)
  handle-Change m (Request.edit_server spec) d = rw then_list-cfg (edit_server-Change m spec d)
  handle-Change m (Request.import_server name conf) d =
      rw then_list-cfg (import_server-Change x codec path m name conf d)
  handle-Change m (Request.remove_server name) d =
      rw then_list-cfg (remove_server-Change x codec path name d)
  handle-Change m (Request.switch_server name) d = switch_server-Change m name d
  handle-Change m Request.disconnect d = same tt (disconnect-cfg d)
