-- ===== src/Daemon/Saved.antt =====
-- What a request can do to the state file: nothing, or one save of the configuration that it leaves.
use wirefinder.Prelude.{
  Bool, true, false, ◌≡◌, refl, inl, inr, Bool-cases, Option-cases, if◌then◌else◌,
}
use wirefinder.Prelude.Lists.{is_empty}
use wirefinder.Text.{Text, trim}
use wirefinder.Result.{Result, ok, err, Result-cases}
use wirefinder.External.{External}
use wirefinder.Exec.{raise, ◌>>=◌}
use wirefinder.Keys
use wirefinder.Proto.{Request, ServerSpec, InterfaceStatus}
use wirefinder.WgConf
use wirefinder.Config
use wirefinder.Config.{ServerConfig, Config, find_server}
use wirefinder.Config.Store.{Codec, save}
use wirefinder.Config.Store.Fs.{FilePath}
use wirefinder.Wireguard.{Wireguard}
use wirefinder.Wireguard.Validate.{validate_server}
use wirefinder.Daemon.State.{
  Moment, Daemon, on_backend, get_cfg, set_cfg, set_last_connect, persist,
}
use wirefinder.Daemon.Servers.{
  edited, commit, add_server, import_server, remove_server, edit_server, active_public_key, refused,
  spec_of,
}
use wirefinder.Daemon.Status.{list_servers, read_status}
use wirefinder.Daemon.Handle.{
  is_outdated, save_cache, refresh, switch_server, disconnect, handle, then_list, status_response,
}

module _ (codec : Codec) (path : FilePath) {S : Type 0} where
  pub data Saves (d d' : Daemon S) : Type 0 where
    unsaved : d'.disk ≡ d.disk → Saves d d'
    saved : d'.disk ≡ (save codec path d'.cfg d.disk).1 → Saves d d'

  remove_server-Saves : (name : Text) (d : Daemon S) → Saves d (remove_server codec path name d).1
  unfolding remove_server ◌>>=◌ get_cfg set_cfg persist raise
  remove_server-Saves name d = elim (Bool-cases (Config.remove_server d.cfg name).1) [
    | inl found ↦ rw found (saved refl)
    | inr missing ↦ rw missing (unsaved refl)
  ]

  refresh-Saves : (name addr : Text) (d : Daemon S) → Saves d (refresh codec path name addr d).1
  unfolding refresh save_cache ◌>>=◌ get_cfg set_cfg persist
  refresh-Saves name addr d = elim (Bool-cases (is_outdated name addr d.cfg)) [
    | inl old ↦ rw old (saved refl)
    | inr fresh ↦ rw fresh (unsaved refl)
  ]

module _ (x : External) (codec : Codec) (path : FilePath) {S : Type 0} where
  commit-Saves :
      (m : Moment) (s : ServerConfig) (d : Daemon S)
      → Saves codec path d (commit x codec path m s d).1
  unfolding commit ◌>>=◌ get_cfg set_cfg persist
  commit-Saves m s d = elim (Result-cases (validate_server x m.resolve s)) [
    | inl (addr, e) ↦ rw e (saved refl)
    | inr (e, p) ↦ rw p (unsaved refl)
  ]

  unless-Saves :
      (refuse : Bool) (e : Text) (m : Moment) (s : ServerConfig) (d : Daemon S)
      → Saves codec path d ((if refuse then raise e else commit x codec path m s) d).1
  unfolding raise
  unless-Saves true e m s d = unsaved refl
  unless-Saves false e m s d = commit-Saves m s d

  add_server-Saves :
      (m : Moment) (spec : ServerSpec) (d : Daemon S)
      → Saves codec path d (add_server x codec path m spec d).1
  unfolding add_server
  add_server-Saves m spec d = unless-Saves (is_empty (trim spec.name)) _ m _ d

  import_server-Saves :
      (m : Moment) (name conf : Text) (d : Daemon S)
      → Saves codec path d (import_server x codec path m name conf d).1
  unfolding import_server ◌>>=◌
  import_server-Saves m name conf d = elim (Result-cases (WgConf.parse conf)) [
    | inl (parsed, e) ↦ rw e (add_server-Saves m (spec_of name parsed) d)
    | inr (e, p) ↦ rw p (unsaved refl)
  ]

module _ (x : External) (codec : Codec) (path : FilePath) {S : Type 0} (wg : Wireguard S) where
  -- The state that reading the interface leaves has the same disk.
  on_disk :
      {d d' : Daemon S} (s : S)
      → Saves codec path (record d { backend = s }) d'
      → Saves codec path d d'
  on_disk s (unsaved e) = unsaved e
  on_disk s (saved e) = saved e

  edit_server-Saves :
      (m : Moment) (spec : ServerSpec) (d : Daemon S)
      → Saves codec path d (edit_server x codec path wg m spec d).1
  unfolding edit_server ◌>>=◌ get_cfg active_public_key on_backend
  edit_server-Saves m spec d = elim (Bool-cases (is_empty (trim spec.name))) [
    | inl blank ↦ rw blank (unsaved refl)
    | inr fine ↦ elim (Option-cases (find_server d.cfg (trim spec.name))) [
      | inl missing ↦ rw (fine, missing) (unsaved refl)
      | inr (s, found) ↦ elim (Result-cases (Keys.public_key x s.private_key)) [
        | inr (e, bad) ↦ rw (fine, found, bad) (unsaved refl)
        | inl (key, good) ↦
            rw (fine, found, good)
              (on_disk (wg.status d.backend).1
                (unless-Saves x codec path _ (refused (trim spec.name)) m (edited spec s) _))
      ]
    ]
  ]

  switch_server-Saves :
      (m : Moment) (name : Text) (d : Daemon S)
      → Saves codec path d (switch_server x codec path wg m name d).1
  unfolding switch_server ◌>>=◌ get_cfg on_backend set_last_connect
  switch_server-Saves m name d = elim (Option-cases (find_server d.cfg name)) [
    | inl missing ↦ rw missing (unsaved refl)
    | inr (s, found) ↦ elim (Result-cases (wg.switch m.resolve s d.backend).0) [
      | inr (e, bad) ↦ rw (found, bad) (unsaved refl)
      | inl (addr, good) ↦
          rw (found, good)
            (elim (refresh-Saves codec path name (x.show_socket_addr addr) _) [
              | unsaved e ↦ unsaved e
              | saved e ↦ saved e
            ])
    ]
  ]

  then_list-Saves :
      {d : Daemon S} (m : Moment) (r : Result (Unit {0}) × Daemon S)
      → Saves codec path d r.1
      → Saves codec path d (then_list x wg m r).1
  unfolding list_servers
  then_list-Saves m (ok _, d) (unsaved e) = unsaved e
  then_list-Saves m (ok _, d) (saved e) = saved e
  then_list-Saves m (err e, d) h = h

  status_response-Saves :
      {d : Daemon S} (r : Result InterfaceStatus × Daemon S)
      → Saves codec path d r.1
      → Saves codec path d (status_response r).1
  status_response-Saves (ok live, d) h = h
  status_response-Saves (err e, d) h = h

  disconnect-Saves : (d : Daemon S) → Saves codec path d (disconnect wg d).1
  unfolding disconnect ◌>>=◌ on_backend set_last_connect
  disconnect-Saves d = elim (Result-cases (wg.disconnect d.backend).0) [
    | inl (a, e) ↦ rw e (unsaved refl)
    | inr (a, e) ↦ rw e (unsaved refl)
  ]

  -- Every request leaves the files alone, or saves the configuration that it leaves, once.
  pub handle-Saves :
      (m : Moment) (req : Request) (d : Daemon S)
      → Saves codec path d (handle x codec path wg m req d).1
  unfolding handle list_servers read_status
  handle-Saves m Request.status d = status_response-Saves (read_status wg m d) (unsaved refl)
  handle-Saves m (Request.list_servers q) d = unsaved refl
  handle-Saves m (Request.get_server name) d = unsaved refl
  handle-Saves m (Request.add_server spec) d =
      then_list-Saves m _ (add_server-Saves x codec path m spec d)
  handle-Saves m (Request.edit_server spec) d = then_list-Saves m _ (edit_server-Saves m spec d)
  handle-Saves m (Request.import_server name conf) d =
      then_list-Saves m _ (import_server-Saves x codec path m name conf d)
  handle-Saves m (Request.remove_server name) d =
      then_list-Saves m _ (remove_server-Saves codec path name d)
  handle-Saves m (Request.switch_server name) d = switch_server-Saves m name d
  handle-Saves m Request.disconnect d = disconnect-Saves d
