-- ===== src/Server/Bind/Locked.antt =====
-- The socket is bound only in a directory that is closed to others, and is itself closed to others.
use wirefinder.Prelude.{
  ℕ, ap, ◌∙◌, is_some, ◌≡◌, refl, arith, true, false, Option, none, some, List, [], ◌∷◌, map_some,
}
use wirefinder.Text.{Text, lit}
use wirefinder.Result.{ok}
use wirefinder.Exec.{pure, attempt, ◌>>=◌}
use wirefinder.Exec.Ends.{
  Ends, Ends-pure, Ends-bind, Ends-attempt, Ends-weaken, After, After-ok, After-either,
}
use wirefinder.Config.Store.{directory}
use wirefinder.Config.Store.Fs.{FilePath}
use wirefinder.Server.Bind.{
  Node, Site, Sudo, acted, act, with_mode, with_owner, owned, create_dir, set_dir_permissions,
  set_socket_permissions, removed, remove_file, listened, listen, invoking_user, chown_dir,
  chown_socket, dir_mode, socket_mode, lock_dir, bind_at, socket_path,
}

Ends-acted :
    (Q : Unit {0} → Site → Type 0) (E : Site → Type 0) (f : Site → Site) (fs : List (Option Text))
    (s : Site)
    → ((gs : List (Option Text)) → Q tt (f (record s { faults = gs })))
    → ((gs : List (Option Text)) → E (record s { faults = gs }))
    → After Q E (acted f fs s).0 (acted f fs s).1
unfolding acted
Ends-acted Q E f [] s q e = q []
Ends-acted Q E f (none ∷ fs) s q e = q fs
Ends-acted Q E f (some m ∷ fs) s q e = e fs

module _ {P E : Site → Type 0} {Q : Unit {0} → Site → Type 0} where
  -- A call: what it comes to if it succeeds, and what its failure leaves.
  Ends-act :
      (f : Site → Site)
      → ((s : Site) (fs : List (Option Text)) → P s → Q tt (f (record s { faults = fs })))
      → ((s : Site) (fs : List (Option Text)) → P s → E (record s { faults = fs }))
      → Ends P (act f) Q E
  unfolding act
  Ends-act f q e = record {
    at = λ s h. Ends-acted Q E f s.faults s (λ fs. q s fs h) (λ fs. e s fs h);
  }

-- The directory is closed to others.
abbrev pub IsLocked : Site → Type 0
IsLocked s = map_some (λ n. n.mode) s.dir ≡ some dir_mode

-- Nothing is bound, or the directory is closed.
abbrev IsSafe : Site → Type 0
IsSafe s = s.bound ≡ true → IsLocked s

abbrev IsUnbound : Site → Type 0
IsUnbound s = s.bound ≡ false

-- The socket's node, when it was just bound by this process.
abbrev IsFresh : Site → Type 0
IsFresh s = (m : ℕ) × (s.socket ≡ some (record { mode = m; owner = none }))

-- How the socket stands after a bind that returned.
abbrev pub IsReady : Sudo → Site → Type 0
IsReady sudo s =
    (s.bound ≡ true)
    × IsLocked s
    × (s.socket ≡ some (record { mode = socket_mode; owner = invoking_user sudo }))

create_dir-Ends :
    Ends IsUnbound (create_dir dir_mode) (λ _ s. IsUnbound s × (is_some s.dir ≡ true)) IsSafe
unfolding create_dir
create_dir-Ends = Ends-act _ (λ s fs h. (h, refl)) (λ s fs h b. absurd (cc (h, b)))

set_dir_permissions-Ends :
    Ends
      (λ s. IsUnbound s × (is_some s.dir ≡ true))
      (set_dir_permissions dir_mode)
      (λ _ s. IsUnbound s × IsLocked s)
      IsSafe
unfolding set_dir_permissions
set_dir_permissions-Ends =
    Ends-act _ (λ s fs h. (h.0, ground arith)) (λ s fs h b. absurd (cc (h.0, b)))

map_some-owned :
    (o : ℕ × ℕ) (n : Option Node)
    → map_some (λ n. n.mode) (owned (some o) n) ≡ map_some (λ n. n.mode) n
map_some-owned o none = refl
map_some-owned o (some n) = refl

chown_dir-Ends :
    (o : Option (ℕ × ℕ))
    → Ends (λ s. IsUnbound s × IsLocked s) (chown_dir o) (λ _ s. IsUnbound s × IsLocked s) IsSafe
unfolding chown_dir
chown_dir-Ends none = Ends-pure tt
chown_dir-Ends (some o) =
    Ends-act _ (λ s fs h. (h.0, map_some-owned o s.dir ∙ h.1)) (λ s fs h b. h.1)

removed-Ends :
    (n : Option Node)
    → Ends
        (λ s. IsUnbound s × IsLocked s)
        (removed n)
        (λ _ s. IsUnbound s × IsLocked s)
        (λ s. IsUnbound s × IsLocked s)
unfolding removed
removed-Ends none = record { at = λ s h. h }
removed-Ends (some n) = Ends-act _ (λ s fs h. h) (λ s fs h. h)

remove_file-Ends :
    Ends
      (λ s. IsUnbound s × IsLocked s)
      remove_file
      (λ _ s. IsUnbound s × IsLocked s)
      (λ s. IsUnbound s × IsLocked s)
unfolding remove_file
remove_file-Ends = record { at = λ s h. (removed-Ends s.socket).at s h }

listened-Ends :
    (n : Option Node)
    → Ends
        (λ s. IsUnbound s × IsLocked s)
        (listened n)
        (λ _ s. (s.bound ≡ true) × IsLocked s × IsFresh s)
        IsSafe
unfolding listened
listened-Ends (some n) = record { at = λ s h b. h.1 }
listened-Ends none = Ends-act _ (λ s fs h. (refl, h.1, (_, refl))) (λ s fs h b. h.1)

listen-Ends :
    Ends
      (λ s. IsUnbound s × IsLocked s)
      listen
      (λ _ s. (s.bound ≡ true) × IsLocked s × IsFresh s)
      IsSafe
unfolding listen
listen-Ends = record { at = λ s h. (listened-Ends s.socket).at s h }

set_socket_permissions-Ends :
    Ends
      (λ s. (s.bound ≡ true) × IsLocked s × IsFresh s)
      (set_socket_permissions socket_mode)
      (λ _ s.
        (s.bound ≡ true)
        × IsLocked s
        × (s.socket ≡ some (record { mode = socket_mode; owner = none })))
      IsSafe
unfolding set_socket_permissions
set_socket_permissions-Ends =
    Ends-act _ (λ s fs h. (h.0, h.1, ap (map_some (with_mode socket_mode)) h.2.1)) (λ s fs h b. h.1)

chown_socket-Ends :
    (o : Option (ℕ × ℕ))
    → Ends
        (λ s.
          (s.bound ≡ true)
          × IsLocked s
          × (s.socket ≡ some (record { mode = socket_mode; owner = none })))
        (chown_socket o)
        (λ _ s.
          (s.bound ≡ true)
          × IsLocked s
          × (s.socket ≡ some (record { mode = socket_mode; owner = o })))
        IsSafe
unfolding chown_socket
chown_socket-Ends none = Ends-pure tt
chown_socket-Ends (some o) =
    Ends-act _ (λ s fs h. (h.0, h.1, ap (map_some (with_owner o)) h.2)) (λ s fs h b. h.1)

bind_at-Ends :
    (sudo : Sudo) (path : FilePath) {dir : Text}
    → directory path ≡ some dir
    → Ends IsUnbound (bind_at sudo path) (λ _ s. IsReady sudo s) IsSafe
unfolding bind_at lock_dir
bind_at-Ends sudo path e = rw e (
    Ends-bind
      (Ends-bind create_dir-Ends
        λ _. Ends-bind set_dir_permissions-Ends λ _. chown_dir-Ends (invoking_user sudo))
      λ _.
        Ends-bind (Ends-weaken _ _ _ _ (λ _ s h. h) (λ s h b. h.1) (Ends-attempt remove_file-Ends))
          λ _.
            Ends-bind listen-Ends λ _.
              Ends-bind set_socket_permissions-Ends λ _. chown_socket-Ends (invoking_user sudo))

-- Where the socket's path names a directory: whatever the calls of the file system answer, a
-- process that has bound the socket has it in a directory of mode 0750, and so it is at every call
-- after the bind, since each of them may be the one that fails.
pub bind_at_safe :
    (sudo : Sudo) (path : FilePath) (s : Site) {dir : Text}
    → directory path ≡ some dir
    → s.bound ≡ false
    → (bind_at sudo path s).1.bound ≡ true
    → IsLocked (bind_at sudo path s).1
bind_at_safe sudo path s e h =
    After-either (λ _ t. IsReady sudo t) IsSafe (λ _ t r b. r.1) (bind_at sudo path s).0
      (bind_at sudo path s).1 ((bind_at-Ends sudo path e).at s h)

-- Where the socket's path names a directory: a bind that returns has bound the socket, in a directory of mode 0750,
-- with mode 0660, and with the owner that `SUDO_UID` and `SUDO_GID` name, if both are numbers,
-- else the daemon's own, whatever stood at the path before.
pub bind_at_ok :
    (sudo : Sudo) (path : FilePath) (s : Site) {dir : Text}
    → directory path ≡ some dir
    → s.bound ≡ false
    → (bind_at sudo path s).0 ≡ ok tt
    → IsReady sudo (bind_at sudo path s).1
bind_at_ok sudo path s e h r =
    After-ok (λ _ t. IsReady sudo t) IsSafe (bind_at sudo path s).0 (bind_at sudo path s).1 r
      ((bind_at-Ends sudo path e).at s h)

-- A bind returns if no call of the file system fails, also over a socket that a former run left.
pub bind_at_returns :
    (sudo : Sudo) (path : FilePath) (s : Site) → s.faults ≡ [] → (bind_at sudo path s).0 ≡ ok tt
unfolding bind_at lock_dir ◌>>=◌ attempt pure create_dir set_dir_permissions set_socket_permissions
    remove_file removed listen listened chown_dir chown_socket act acted
bind_at_returns sudo path s h = ground arith

pub directory-socket_path : directory socket_path ≡ some (lit "/run/wirefinder")
unfolding directory lit
directory-socket_path = refl
