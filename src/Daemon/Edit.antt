-- ===== src/Daemon/Edit.antt =====
-- `Daemon::edit_server` of daemon/src/daemon.rs: what an edit keeps.
use wirefinder.Prelude.{none, some, ◌≡◌, refl, ◌∙◌, ap, map_some}
use wirefinder.Text.{trim}
use wirefinder.Text.Equality.{equal_self}
use wirefinder.Result.{ok}
use wirefinder.External.{External}
use wirefinder.Proto.{ServerSpec}
use wirefinder.Config.{ServerConfig, find_server}
use wirefinder.Config.Lookup.{find_server-upsert_server}
use wirefinder.Config.Store.{Codec}
use wirefinder.Config.Store.Fs.{FilePath}
use wirefinder.Wireguard.{Wireguard}
use wirefinder.Daemon.State.{Moment, Daemon}
use wirefinder.Daemon.Servers.{supplied, server_of, edited, edit_server}
use wirefinder.Daemon.Commit.{cached, IsCommitted, edit_server_ok}

module _ (x : External) (codec : Codec) (path : FilePath) {S : Type 0} where
  -- A committed server is the one that its name leads to.
  pub IsCommitted-find_server :
      (m : Moment) (s : ServerConfig) (d t : Daemon S)
      → (c : IsCommitted x codec path m s d t) → find_server t.cfg s.name ≡ some (cached x s c.addr)
  IsCommitted-find_server m s d t c =
      ap (λ cfg. find_server cfg s.name) c.stored
      ∙ find_server-upsert_server d.cfg (cached x s c.addr) s.name
      ∙ rw (equal_self s.name) refl

module _ (x : External) (codec : Codec) (path : FilePath) {S : Type 0} (wg : Wireguard S)
    (m : Moment) (spec : ServerSpec) (d : Daemon S) where
  -- An edit that returns and supplies no private key keeps the stored one.
  pub edit_server-private_key :
      (edit_server x codec path wg m spec d).0 ≡ ok tt
      → supplied spec.private_key ≡ none
      → map_some
          (λ s. s.private_key)
          (find_server (edit_server x codec path wg m spec d).1.cfg (trim spec.name))
        ≡ map_some (λ s. s.private_key) (find_server d.cfg (trim spec.name))
  unfolding edited server_of
  edit_server-private_key h blank =
      let e = edit_server_ok x codec path wg m spec d h in
      ap (map_some (λ s. s.private_key)) (IsCommitted-find_server x codec path m _ d _ e.committed)
      ∙ rw (e.was, blank) refl

  -- An edit that returns and supplies no preshared key keeps the stored one, or its absence.
  pub edit_server-preshared_key :
      (edit_server x codec path wg m spec d).0 ≡ ok tt
      → supplied spec.preshared_key ≡ none
      → map_some
          (λ s. s.preshared_key)
          (find_server (edit_server x codec path wg m spec d).1.cfg (trim spec.name))
        ≡ map_some (λ s. s.preshared_key) (find_server d.cfg (trim spec.name))
  unfolding edited server_of
  edit_server-preshared_key h blank =
      let e = edit_server_ok x codec path wg m spec d h in
      ap (map_some (λ s. s.preshared_key))
        (IsCommitted-find_server x codec path m _ d _ e.committed)
      ∙ rw (e.was, blank) refl
