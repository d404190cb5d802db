-- ===== src/Main/Start.antt =====
-- One life of the daemon: how a daemon that serves stands, and what starting and ending it leave alone.
use wirefinder.Prelude.{◌≡◌, refl, false, [], inl, inr}
use wirefinder.Result.{Result, Result-cases}
use wirefinder.External.{External}
use wirefinder.Config.Store
use wirefinder.Config.Store.{Codec}
use wirefinder.Config.Store.Fs.{FilePath, Files}
use wirefinder.Config.Store.Recovery.{load-files}
use wirefinder.Wireguard.{Wireguard}
use wirefinder.Daemon.State.{load}
use wirefinder.Server.{Json, serve}
use wirefinder.Server.Bind.{Sudo, bind, socket_path}
use wirefinder.Server.Bind.Locked.{directory-socket_path, IsReady, bind_at_ok}
use wirefinder.Main.{
  World, Surroundings, Outcome, serving, exited, panicked, closed, main, on_signal,
}

pub data End : Type 0 where
  signalled : End
  killed : End

module _ {S : Type 0} where
  abbrev pub ended : End → Outcome × World S → World S
  ended signalled (serving, w) = (on_signal w).1
  ended killed (serving, w) = record w { site = closed w.site }
  ended _ (_, w) = w

  ended_idle :
      {b : S} {fs : Files} (end : End) (o : Outcome) (w : World S)
      → w.backend ≡ b
      → w.disk.files ≡ fs
      → ((ended end (o, w)).backend ≡ b) × ((ended end (o, w)).disk.files ≡ fs)
  unfolding on_signal
  ended_idle signalled serving w h k = (h, k)
  ended_idle killed serving w h k = (h, k)
  ended_idle signalled (exited n) w h k = (h, k)
  ended_idle killed (exited n) w h k = (h, k)
  ended_idle signalled panicked w h k = (h, k)
  ended_idle killed panicked w h k = (h, k)

module _ (json : Json) (x : External) (codec : Codec) (path : FilePath) {S : Type 0}
    (wg : Wireguard S) where
  -- A daemon that serves, started where no process of it had the socket bound, has the socket's
  -- directory at mode 0750 and the socket at 0660, owned by the user and group that `SUDO_UID`
  -- and `SUDO_GID` name, if both are numbers, else by its own.
  pub main-IsReady :
      (env : Surroundings) (w : World S)
      → w.site.bound ≡ false
      → (main json x codec path wg env w).0 ≡ serving
      → IsReady env.sudo (main json x codec path wg env w).1.site
  unfolding main load bind
  main-IsReady env w fresh = elim (Result-cases (Store.load codec path w.disk).0) [
    | inr (e, bad) ↦ rw bad λ h. absurd (cc h)
    | inl (cfg, good) ↦ elim (Result-cases env.handler) [
      | inr (e, bad) ↦ rw (good, bad) λ h. absurd (cc h)
      | inl (a, armed) ↦ elim (Result-cases (bind env.sudo w.site).0) [
        | inr (e, bad) ↦ rw (good, armed, bad) λ h. absurd (cc h)
        | inl (b, bound) ↦
            rw (good, armed, bound)
              λ h. bind_at_ok env.sudo socket_path w.site directory-socket_path fresh bound
      ]
    ]
  ]

  -- A life without clients, however it starts and ends, leaves the tunnel and every file in the
  -- directory of the state file as they were.
  pub ended-main_idle :
      (sudo : Sudo) (handler : Result (Unit {0})) (end : End) (w : World S)
      → ((ended end (
            main json x codec path wg
              (record { sudo = sudo; handler = handler; clients = [] })
              w)).backend
          ≡ w.backend)
        × ((ended end (
              main json x codec path wg
                (record { sudo = sudo; handler = handler; clients = [] })
                w)).disk.files
            ≡ w.disk.files)
  unfolding main load serve on_signal
  ended-main_idle sudo handler end w = elim (Result-cases (Store.load codec path w.disk).0) [
    | inr (e, bad) ↦ rw bad (ended_idle end (exited 1) _ refl (load-files codec path w.disk))
    | inl (cfg, good) ↦ elim (Result-cases handler) [
      | inr (e, bad) ↦
          rw (good, bad) (ended_idle end panicked _ refl (load-files codec path w.disk))
      | inl (a, armed) ↦ elim (Result-cases (bind sudo w.site).0) [
        | inr (e, bad) ↦
            rw (good, armed, bad) (ended_idle end (exited 1) _ refl (load-files codec path w.disk))
        | inl (b, bound) ↦
            rw (good, armed, bound) (ended_idle end serving _ refl (load-files codec path w.disk))
      ]
    ]
  ]
