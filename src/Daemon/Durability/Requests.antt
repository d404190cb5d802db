-- ===== src/Daemon/Durability/Requests.antt =====
-- What a restart of the daemon finds after any request that changes the configured servers.
use wirefinder.Prelude.{◌≡◌, refl, inl, inr, List}
use wirefinder.Text.{Text}
use wirefinder.Result.{Result, ok, err, Result-cases}
use wirefinder.External.{External}
use wirefinder.Exec.{lift, ◌>>=◌}
use wirefinder.Proto.{Request, Response, ServerInfo}
use wirefinder.WgConf
use wirefinder.Config.Store.{Codec}
use wirefinder.Config.Store.Fs.{FilePath}
use wirefinder.Config.Store.Recovery.{restart}
use wirefinder.Wireguard.{Wireguard}
use wirefinder.Daemon.State.{Moment, Daemon}
use wirefinder.Daemon.Servers.{spec_of, add_server, edit_server, import_server, remove_server}
use wirefinder.Daemon.Status.{list_servers}
use wirefinder.Daemon.Handle.{handle, then_list}
use wirefinder.Daemon.Durability.{
  ReadsBack, add_server-restart, edit_server-restart, remove_server-restart,
}

-- The requests that change the configured servers.
abbrev pub Changes : Request → Type 0
Changes (Request.add_server spec) = Unit
Changes (Request.edit_server spec) = Unit
Changes (Request.import_server name conf) = Unit
Changes (Request.remove_server name) = Unit
Changes _ = ⊥

-- A restart would load the daemon's configuration.
record IsDurable (codec : Codec) (path : FilePath) {S : Type 0} (d : Daemon S) : Type 0 where
  reads : restart codec path d.disk.files ≡ ok d.cfg

module _ (x : External) (codec : Codec) (path : FilePath) {S : Type 0} (wg : Wireguard S) where
  -- A list for an answer: the change returned, and the list changed neither the configuration nor the
  -- disk.
  then_list-IsDurable :
      (m : Moment) (p : Result (Unit {0}) × Daemon S) {infos : List ServerInfo}
      → (then_list x wg m p).0 ≡ Response.servers infos
      → (p.0 ≡ ok tt → ReadsBack codec p.1.cfg → IsDurable codec path p.1)
      → ReadsBack codec (then_list x wg m p).1.cfg
      → IsDurable codec path (then_list x wg m p).1
  unfolding list_servers
  then_list-IsDurable m (ok tt, d) h k reads = record { reads = (k refl reads).reads }
  then_list-IsDurable m (err e, d) h k reads = absurd (cc h)

  import_server-IsDurable :
      (m : Moment) (name conf : Text) (d : Daemon S)
      → (import_server x codec path m name conf d).0 ≡ ok tt
      → ReadsBack codec (import_server x codec path m name conf d).1.cfg
      → IsDurable codec path (import_server x codec path m name conf d).1
  unfolding import_server ◌>>=◌ lift
  import_server-IsDurable m name conf d = elim (Result-cases (WgConf.parse conf)) [
    | inl (parsed, e) ↦ rw e λ h reads. record {
      reads = add_server-restart x codec path m (spec_of name parsed) d h reads;
    }
    | inr (e, bad) ↦ rw bad λ h reads. absurd (cc h)
  ]

  answered-IsDurable :
      (m : Moment) (req : Request) (d : Daemon S) {infos : List ServerInfo}
      → Changes req
      → (handle x codec path wg m req d).0 ≡ Response.servers infos
      → ReadsBack codec (handle x codec path wg m req d).1.cfg
      → IsDurable codec path (handle x codec path wg m req d).1
  unfolding handle
  answered-IsDurable m (Request.add_server spec) d c h reads =
      then_list-IsDurable m (add_server x codec path m spec d) h
        (λ e r. record { reads = add_server-restart x codec path m spec d e r }) reads
  answered-IsDurable m (Request.edit_server spec) d c h reads =
      then_list-IsDurable m (edit_server x codec path wg m spec d) h
        (λ e r. record { reads = edit_server-restart x codec path wg m spec d e r }) reads
  answered-IsDurable m (Request.import_server name conf) d c h reads =
      then_list-IsDurable m (import_server x codec path m name conf d) h
        (import_server-IsDurable m name conf d) reads
  answered-IsDurable m (Request.remove_server name) d c h reads =
      then_list-IsDurable m (remove_server codec path name d) h
        (λ e r. record { reads = (remove_server-restart codec path name d e r).0 }) reads
  answered-IsDurable m Request.status d c h reads = absurd c
  answered-IsDurable m (Request.list_servers query) d c h reads = absurd c
  answered-IsDurable m (Request.get_server name) d c h reads = absurd c
  answered-IsDurable m (Request.switch_server name) d c h reads = absurd c
  answered-IsDurable m Request.disconnect d c h reads = absurd c

  -- If the code of the configuration that it leaves is read back as it was written: after an addition, an
  -- edit, an import or a removal that was answered with the list, a restart loads the daemon's
  -- configuration.
  pub handle-restart :
      (m : Moment) (req : Request) (d : Daemon S) {infos : List ServerInfo}
      → Changes req
      → (handle x codec path wg m req d).0 ≡ Response.servers infos
      → ReadsBack codec (handle x codec path wg m req d).1.cfg
      → restart codec path (handle x codec path wg m req d).1.disk.files
        ≡ ok (handle x codec path wg m req d).1.cfg
  handle-restart m req d c h reads = (answered-IsDurable m req d c h reads).reads
