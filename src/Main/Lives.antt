-- ===== src/Main/Lives.antt =====
-- The daemon over several lives: each starts on what the last one left, and ends by a signal or by
-- being killed.
use mathlib.Core.Path.{subst}
use wirefinder.Prelude.{◌≡◌, ◌∙◌, none, List, [], ◌∷◌, inl, inr}
use wirefinder.Result.{◌>>=◌, ok, Result-cases}
use wirefinder.External.{External}
use wirefinder.Proto.{Request}
use wirefinder.Config.{Config}
use wirefinder.Config.Store
use wirefinder.Config.Store.{Codec}
use wirefinder.Config.Store.Fs.{FilePath, Disk, Files}
use wirefinder.Config.Store.Recovery.{restart, restart-save_either, load-restart, load-files}
use wirefinder.Wireguard.{Wireguard}
use wirefinder.Daemon.State.{Moment, Daemon, load}
use wirefinder.Daemon.Handle.{handle}
use wirefinder.Daemon.Durability.{ReadsBack}
use wirefinder.Daemon.Invariant.{IsConfigured, Change-IsConfigured}
use wirefinder.Daemon.Changes.{handle-Change}
use wirefinder.Daemon.Saved.{Saves, unsaved, saved, handle-Saves}
use wirefinder.Server.{
  Json, Connection, read_capped, handle_client, serve, dispatch, max_request_bytes,
}
use wirefinder.Server.Bind.{bind}
use wirefinder.Main.Start.{End, signalled, killed, ended}
use wirefinder.Main.{World, Surroundings, Outcome, serving, exited, panicked, main, on_signal}

module _ (json : Json) (x : External) (codec : Codec) (path : FilePath) {S : Type 0}
    (wg : Wireguard S) where
  abbrev pub Lives : Type 0
  Lives = List (Surroundings × End)

  unfoldable pub live : Lives → World S → World S
  live [] w = w
  live ((env, end) ∷ rest) w = live rest (ended end (main json x codec path wg env w))

  -- The state file restores to a configuration that the invariant of the daemon allows.
  pub record IsRestorable (files : Files) : Type 0 where
    pub cfg : Config
    pub restores : restart codec path files ≡ ok cfg
    pub configured : IsConfigured x cfg

  -- The same of a daemon, with the configuration that it holds.
  record IsSettled (d : Daemon S) : Type 0 where
    files : IsRestorable d.disk.files
    configured : IsConfigured x d.cfg

  module _ (reads : (c : Config) → IsConfigured x c → ReadsBack codec c) where
    Saves-IsRestorable :
        {d d' : Daemon S}
        → Saves codec path d d'
        → IsConfigured x d'.cfg
        → IsRestorable d.disk.files
        → IsRestorable d'.disk.files
    Saves-IsRestorable (unsaved e) c h = rw e h
    Saves-IsRestorable {d} {d'} (saved e) c h =
        elim (restart-save_either codec path d'.cfg (reads d'.cfg c) d.disk) [
          | inl same ↦
              rw e (record { cfg = h.cfg; restores = same ∙ h.restores; configured = h.configured })
          | inr new ↦ rw e (record { cfg = d'.cfg; restores = new; configured = c })
        ]

    handle-IsSettled :
        (m : Moment) (req : Request) (d : Daemon S)
        → IsSettled d
        → IsSettled (handle x codec path wg m req d).1
    handle-IsSettled m req d h =
        let c = Change-IsConfigured x (handle-Change x codec path wg m req d) h.configured in
        record {
          files = Saves-IsRestorable (handle-Saves x codec path wg m req d) c h.files;
          configured = c;
        }

    handle_client-IsSettled :
        (m : Moment) (c : Connection) (d : Daemon S)
        → IsSettled d
        → IsSettled (handle_client json x codec path wg m c d).1
    unfolding handle_client dispatch
    handle_client-IsSettled m c d h =
        elim (Result-cases (c.received >>= read_capped max_request_bytes)) [
          | inr (e, bad) ↦ rw bad h
          | inl (line, good) ↦ elim (Result-cases (json.decode_request line)) [
            | inr (e, bad) ↦ rw (good, bad) h
            | inl (req, e) ↦ rw (good, e) (handle-IsSettled m req d h)
          ]
        ]

    serve-IsSettled :
        (clients : List (Moment × Connection)) (d : Daemon S)
        → IsSettled d
        → IsSettled (serve json x codec path wg clients d)
    unfolding serve
    serve-IsSettled [] d h = h
    serve-IsSettled ((m, c) ∷ rest) d h = serve-IsSettled rest _ (handle_client-IsSettled m c d h)

    started-IsSettled :
        (s : S) (disk : Disk) {cfg : Config}
        → (Store.load codec path disk).0 ≡ ok cfg
        → IsRestorable disk.files
        → IsSettled (record {
          disk = (Store.load codec path disk).1;
          cfg = cfg;
          backend = s;
          last_connect = none;
        })
    started-IsSettled s disk {cfg} h r =
        let same : r.cfg ≡ cfg = cc (r.restores, load-restart codec path disk h) in
        record {
          files = rw (load-files codec path disk) r;
          configured = subst (IsConfigured x) same r.configured;
        }

    main-IsRestorable :
        (env : Surroundings) (w : World S)
        → IsRestorable w.disk.files
        → IsRestorable (main json x codec path wg env w).1.disk.files
    unfolding main load
    main-IsRestorable env w r = elim (Result-cases (Store.load codec path w.disk).0) [
      | inr (e, bad) ↦ rw (bad, load-files codec path w.disk) r
      | inl (cfg, good) ↦
          let d = started-IsSettled w.backend w.disk good r in
          elim (Result-cases env.handler) [
            | inr (e, bad) ↦ rw (good, bad) d.files
            | inl (a, armed) ↦ elim (Result-cases (bind env.sudo w.site).0) [
              | inr (e, bad) ↦ rw (good, armed, bad) d.files
              | inl (b, bound) ↦ rw (good, armed, bound) (serve-IsSettled env.clients _ d).files
            ]
          ]
    ]

    ended-IsRestorable :
        (end : End) (r : Outcome × World S)
        → IsRestorable r.1.disk.files
        → IsRestorable (ended end r).disk.files
    unfolding on_signal
    ended-IsRestorable signalled (serving, w) h = h
    ended-IsRestorable killed (serving, w) h = h
    ended-IsRestorable signalled (exited n, w) h = h
    ended-IsRestorable killed (exited n, w) h = h
    ended-IsRestorable signalled (panicked, w) h = h
    ended-IsRestorable killed (panicked, w) h = h

    -- If every configuration with unique, trimmed, non-blank names whose keys, addresses, allowed
    -- IPs and resolvers all parse is read back as it was written, and the state file holds such a configuration (or is
    -- absent): the same is so after any lives of the daemon, each ended by a signal or by being
    -- killed, whatever its clients sent and whichever calls of the file system failed.
    pub live-IsRestorable :
        (lives : Lives) (w : World S)
        → IsRestorable w.disk.files
        → IsRestorable (live lives w).disk.files
    unfolding live
    live-IsRestorable [] w h = h
    live-IsRestorable ((env, end) ∷ rest) w h =
        live-IsRestorable rest _ (ended-IsRestorable end _ (main-IsRestorable env w h))
