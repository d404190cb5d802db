-- ===== src/Daemon/State.antt =====
-- The state of daemon/src/daemon.rs's `Daemon`, the connecting window, and the actions from which
-- the handlers are built.
use wirefinder.Prelude.{
  ℕ, ◌-◌, ◌*◌, ◌/◌, ◌^◌, Bool, false, ◌==◌, ltb, Option, none, some, if◌then◌else◌,
}
use wirefinder.Prelude.Lists.{length}
use wirefinder.Text.{Text}
use wirefinder.Result.{Result, ok, err}
use wirefinder.External.{SystemTime, Resolver}
use wirefinder.Exec.{Exec}
use wirefinder.Proto.{ConnState, alive, connecting, stale, never}
use wirefinder.Config.{Config}
use wirefinder.Config.Store
use wirefinder.Config.Store.{Codec}
use wirefinder.Config.Store.Fs.{FilePath, Disk}
use wirefinder.Wireguard.{LivePeer}

-- In nanoseconds, as are `SystemTime` and `Instant`.
abbrev pub second : ℕ
second = 10 ^ 9

abbrev pub connecting_window : ℕ
connecting_window = 15 * second

-- In seconds, as `as_secs` reads it.
abbrev pub stale_after : ℕ
stale_after = 180

unfoldable pub derive_state : Option ℕ → Bool → ConnState
derive_state (some age) connecting? = if ltb age stale_after then alive else stale
derive_state none connecting? = if connecting? then connecting else never

-- `duration_since(t)` fails for a later `t`, and the age is then 0, as is `now - t` here.
unfoldable pub handshake_age : SystemTime → LivePeer → Option ℕ
handshake_age now peer = elim peer.last_handshake [
  | none ↦ none
  | some t ↦ if t == 0 then none else some ((now - t) / second)
]

-- What a request takes from its surroundings: the two clocks, the key that the generator would
-- give, the answers of the resolver.
pub record Moment : Type 0 where
  pub instant : ℕ
  pub system_time : SystemTime
  pub generated : Text
  pub resolve : Resolver

-- The daemon, with the state of the backend that `wg` acts on and the directory of its state file.
pub record Daemon (S : Type 0) : Type 0 where
  pub disk : Disk
  pub cfg : Config
  pub backend : S
  pub last_connect : Option ℕ

module _ {S : Type 0} where
  unfoldable pub on_backend : {A : Type 0} → Exec S A → Exec (Daemon S) A
  on_backend m d = let (r, s) = m d.backend in (r, record d { backend = s })

  unfoldable pub get_cfg : Exec (Daemon S) Config
  get_cfg d = (ok d.cfg, d)

  unfoldable pub set_cfg : Config → Exec (Daemon S) (Unit {0})
  set_cfg cfg d = (ok tt, record d { cfg = cfg })

  unfoldable pub set_last_connect : Option ℕ → Exec (Daemon S) (Unit {0})
  set_last_connect t d = (ok tt, record d { last_connect = t })

  unfoldable pub is_connecting : Moment → Daemon S → Bool
  is_connecting m d = elim d.last_connect [
    | none ↦ false
    | some t ↦ ltb (m.instant - t) connecting_window
  ]

module _ (codec : Codec) (path : FilePath) {S : Type 0} where
  -- `self.store.save(&self.cfg)`
  unfoldable pub persist : Exec (Daemon S) (Unit {0})
  persist d = let (r, disk) = Store.save codec path d.cfg d.disk in (r, record d { disk = disk })

  unfoldable pub started : S → Result Config × Disk → Result (Daemon S) × Disk
  started s (ok cfg, disk) =
      (ok (record { disk = disk; cfg = cfg; backend = s; last_connect = none }), disk)
  started s (err e, disk) = (err e, disk)

  -- `Daemon::load`
  unfoldable pub load : Disk → S → Result (Daemon S) × Disk
  unfolding started
  load disk s = started s (Store.load codec path disk)

unfoldable pub server_count : {S : Type 0} → Daemon S → ℕ
server_count d = length d.cfg.servers
