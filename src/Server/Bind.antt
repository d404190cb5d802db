-- ===== src/Server/Bind.antt =====
-- `bind_at` and `chown_to_invoking_user` of daemon/src/server.rs, over the directory and the socket
-- that they set up. Each call takes the next entry of a script of faults, as in Config/Store/Fs.
pub mod Locked
use Prim.Native.Nat.{bit_and}
use wirefinder.Prelude.{ℕ, ◌-◌, Bool, true, Option, none, some, List, [], ◌∷◌, and_then, map_some}
use wirefinder.Text.{Text, lit, parse_unsigned}
use wirefinder.Result.{Result, ok, err}
use wirefinder.Exec.{Exec, pure, attempt, ◌>>=◌, ◌>>◌}
use wirefinder.Config.Store.{directory}
use wirefinder.Config.Store.Fs.{FilePath}
use wirefinder.WgConf.{u32}

-- The owner is `none` while it is the daemon's own user.
pub record Node : Type 0 where
  pub mode : ℕ
  pub owner : Option (ℕ × ℕ)

-- What stands at the socket's directory and at its path, and whether this process has bound it.
pub record Site : Type 0 where
  pub dir : Option Node
  pub socket : Option Node
  pub bound : Bool
  pub umask : ℕ
  pub faults : List (Option Text)

-- The variables `SUDO_UID` and `SUDO_GID`
pub record Sudo : Type 0 where
  pub uid : Option Text
  pub gid : Option Text

unfoldable pub acted : (Site → Site) → List (Option Text) → Site → Result (Unit {0}) × Site
acted f [] r = (ok tt, f (record r { faults = [] }))
acted f (none ∷ fs) r = (ok tt, f (record r { faults = fs }))
acted f (some e ∷ fs) r = (err e, record r { faults = fs })

-- A call that changes the site by `f`, or fails and changes nothing.
unfoldable pub act : (Site → Site) → Exec Site (Unit {0})
unfolding acted
act f r = acted f r.faults r

-- The bits of a mode that the umask leaves to a new file, for a umask below 0o1000.
abbrev pub left_by : ℕ → ℕ → ℕ
left_by umask mode = bit_and mode (0o777 - umask)

abbrev pub created : ℕ → Option Node → Node
created mode none = record { mode = mode; owner = none }
created mode (some n) = n

-- `DirBuilder::new().recursive(true).mode(mode).create(dir)`
unfoldable pub create_dir : ℕ → Exec Site (Unit {0})
create_dir mode = act (λ r. record r { dir = some (created (left_by r.umask mode) r.dir) })

abbrev pub with_mode : ℕ → Node → Node
with_mode mode n = record n { mode = mode }

abbrev pub with_owner : ℕ × ℕ → Node → Node
with_owner o n = record n { owner = some o }

unfoldable pub set_dir_permissions : ℕ → Exec Site (Unit {0})
set_dir_permissions mode = act (λ r. record r { dir = map_some (with_mode mode) r.dir })

unfoldable pub set_socket_permissions : ℕ → Exec Site (Unit {0})
set_socket_permissions mode = act (λ r. record r { socket = map_some (with_mode mode) r.socket })

unfoldable pub removed : Option Node → Exec Site (Unit {0})
removed none = λ r. (err (lit "No such file or directory"), r)
removed (some n) = act (λ r. record r { socket = none })

-- `fs::remove_file(path)`
unfoldable pub remove_file : Exec Site (Unit {0})
remove_file r = removed r.socket r

unfoldable pub listened : Option Node → Exec Site (Unit {0})
listened (some n) = λ r. (err (lit "Address already in use"), r)
listened none =
    act (λ r. record r { socket = some (created (left_by r.umask 0o777) none); bound = true })

-- `UnixListener::bind(path)`
unfoldable pub listen : Exec Site (Unit {0})
listen r = listened r.socket r

-- The user and the group to hand a path to, when both variables are numbers.
unfoldable pub invoking_user : Sudo → Option (ℕ × ℕ)
invoking_user sudo = elim (and_then sudo.uid (parse_unsigned u32)) [
  | none ↦ none
  | some uid ↦ map_some (λ gid. (uid, gid)) (and_then sudo.gid (parse_unsigned u32))
]

abbrev pub owned : Option (ℕ × ℕ) → Option Node → Option Node
owned none n = n
owned (some o) n = map_some (with_owner o) n

unfoldable pub chown_dir : Option (ℕ × ℕ) → Exec Site (Unit {0})
chown_dir none = pure tt
chown_dir (some o) = act (λ r. record r { dir = owned (some o) r.dir })

unfoldable pub chown_socket : Option (ℕ × ℕ) → Exec Site (Unit {0})
chown_socket none = pure tt
chown_socket (some o) = act (λ r. record r { socket = owned (some o) r.socket })

abbrev pub dir_mode : ℕ
dir_mode = 0o750

abbrev pub socket_mode : ℕ
socket_mode = 0o660

-- The directory is made and locked down before anything is bound in it.
unfoldable pub lock_dir : Sudo → Option Text → Exec Site (Unit {0})
lock_dir sudo none = pure tt
lock_dir sudo (some dir) = do
  create_dir dir_mode
  set_dir_permissions dir_mode
  chown_dir (invoking_user sudo)

unfoldable pub bind_at : Sudo → FilePath → Exec Site (Unit {0})
bind_at sudo path = do
  lock_dir sudo (directory path)
  attempt remove_file
  listen
  set_socket_permissions socket_mode
  chown_socket (invoking_user sudo)

abbrev pub socket_path : FilePath
socket_path = record { parent = some (lit "/run/wirefinder"); file_name = lit "wirefinderd.sock" }

unfoldable pub bind : Sudo → Exec Site (Unit {0})
bind sudo = bind_at sudo socket_path
