-- ===== src/Daemon/Durability.antt =====
-- What a restart of the daemon finds after a request of daemon/src/daemon.rs that was answered well.
pub mod Requests
use wirefinder.Prelude.{◌≡◌, refl, Bool-cases, inl, inr}
use wirefinder.Text.{Text}
use wirefinder.Result.{ok}
use wirefinder.External.{External}
use wirefinder.Exec.{raise, ◌>>=◌}
use wirefinder.Proto.{ServerSpec}
use wirefinder.Config
use wirefinder.Config.{Config}
use wirefinder.Config.Store.{Codec}
use wirefinder.Config.Store.Fs.{FilePath}
use wirefinder.Config.Store.Recovery.{restart, restart-IsSaved, restart-save}
use wirefinder.Wireguard.{Wireguard}
use wirefinder.Daemon.State.{Moment, Daemon, get_cfg, set_cfg, persist}
use wirefinder.Daemon.Servers.{add_server, edit_server, remove_server}
use wirefinder.Daemon.Commit.{add_server_ok, edit_server_ok}

-- The code of the configuration is read back as it was written.
abbrev pub ReadsBack : Codec → Config → Type 0
ReadsBack codec cfg = (text : Text) → codec.encode cfg ≡ ok text → codec.decode text ≡ ok cfg

module _ (x : External) (codec : Codec) (path : FilePath) {S : Type 0} where
  -- If the code of the new configuration is read back as it was written: after an addition that returns, a restart loads
  -- the daemon's configuration.
  pub add_server-restart :
      (m : Moment) (spec : ServerSpec) (d : Daemon S)
      → (add_server x codec path m spec d).0 ≡ ok tt
      → ReadsBack codec (add_server x codec path m spec d).1.cfg
      → restart codec path (add_server x codec path m spec d).1.disk.files
        ≡ ok (add_server x codec path m spec d).1.cfg
  add_server-restart m spec d h reads =
      restart-IsSaved codec path _ reads _ (add_server_ok x codec path m spec d h).1.saved

  -- If the code of the new configuration is read back as it was written: after an edit that returns, a restart loads the
  -- daemon's configuration.
  pub edit_server-restart :
      (wg : Wireguard S) (m : Moment) (spec : ServerSpec) (d : Daemon S)
      → (edit_server x codec path wg m spec d).0 ≡ ok tt
      → ReadsBack codec (edit_server x codec path wg m spec d).1.cfg
      → restart codec path (edit_server x codec path wg m spec d).1.disk.files
        ≡ ok (edit_server x codec path wg m spec d).1.cfg
  edit_server-restart wg m spec d h reads =
      restart-IsSaved codec path _ reads _
        (edit_server_ok x codec path wg m spec d h).committed.saved

module _ (codec : Codec) (path : FilePath) {S : Type 0} where
  -- If the code of the new configuration is read back as it was written: after a removal that returns, a restart loads
  -- the daemon's configuration, which is the one before without the name.
  pub remove_server-restart :
      (name : Text) (d : Daemon S)
      → (remove_server codec path name d).0 ≡ ok tt
      → ReadsBack codec (remove_server codec path name d).1.cfg
      → (restart codec path (remove_server codec path name d).1.disk.files
          ≡ ok (remove_server codec path name d).1.cfg)
        × ((remove_server codec path name d).1.cfg ≡ (Config.remove_server d.cfg name).0)
  unfolding remove_server ◌>>=◌ get_cfg set_cfg persist raise
  remove_server-restart name d = elim (Bool-cases (Config.remove_server d.cfg name).1) [
    | inl found ↦ rw found λ h reads. (restart-save codec path _ reads d.disk h, refl)
    | inr missing ↦ rw missing λ h reads. absurd (cc h)
  ]
