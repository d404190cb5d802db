-- ===== src/Main.antt =====
-- daemon/src/main.rs: the start of the daemon and its end by a signal, over the disk, the backend and
-- the place of the socket.
pub mod Start
pub mod Lives
use wirefinder.Prelude.{ℕ, false, List, [], ◌∷◌}
use wirefinder.Result.{Result, ok, err}
use wirefinder.External.{External}
use wirefinder.Exec.{attempt}
use wirefinder.Config.Store.{Codec}
use wirefinder.Config.Store.Fs.{FilePath, Disk}
use wirefinder.Wireguard.{Wireguard}
use wirefinder.Daemon.State.{Moment, Daemon, load}
use wirefinder.Server.{Json, Connection, serve}
use wirefinder.Server.Bind.{Site, Sudo, remove_file, bind}

pub record World (S : Type 0) : Type 0 where
  pub disk : Disk
  pub backend : S
  pub site : Site

-- What one run of the daemon meets: its environment, whether the signal handler can be installed,
-- and its clients.
pub record Surroundings : Type 0 where
  pub sudo : Sudo
  pub handler : Result (Unit {0})
  pub clients : List (Moment × Connection)

pub data Outcome : Type 0 where
  exited : ℕ → Outcome
  panicked : Outcome
  serving : Outcome

-- The listener of a process is closed with it; the file of its socket stays.
abbrev pub closed : Site → Site
closed site = record site { bound = false }

abbrev pub world_of : {S : Type 0} → Daemon S → Site → World S
world_of d site = record { disk = d.disk; backend = d.backend; site = site }

module _ (json : Json) (x : External) (codec : Codec) (path : FilePath) {S : Type 0}
    (wg : Wireguard S) where
  listening : Surroundings → Daemon S → Result (Unit {0}) × Site → Outcome × World S
  listening env d (err e, site) = (exited 1, world_of d (closed site))
  listening env d (ok _, site) = (serving, world_of (serve json x codec path wg env.clients d) site)

  armed : Surroundings → Daemon S → Site → Result (Unit {0}) → Outcome × World S
  unfolding listening
  armed env d site (err e) = (panicked, world_of d (closed site))
  armed env d site (ok _) = listening env d (bind env.sudo site)

  loaded : Surroundings → World S → Result (Daemon S) × Disk → Outcome × World S
  unfolding armed
  loaded env w (err e, disk) = (exited 1, record w { disk = disk; site = closed w.site })
  loaded env w (ok d, disk) = armed env d w.site env.handler

  -- While it serves, the world is the one that the clients so far have left.
  unfoldable pub main : Surroundings → World S → Outcome × World S
  unfolding loaded
  main env w = loaded env w (load codec path w.disk w.backend)

-- The handler that `install_signal_handler` installs.
unfoldable pub on_signal : {S : Type 0} → World S → Outcome × World S
on_signal w = (exited 0, record w { site = closed (attempt remove_file w.site).1 })
