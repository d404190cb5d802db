-- ===== src/Daemon/Commit.antt =====
-- The outcomes of the requests of daemon/src/daemon.rs that store a server: what a success has
-- done, and what a failure has left.
use mathlib.Core.Path.{subst}
use wirefinder.Prelude.{
  false, none, map, ap, ◌∙◌, Option, some, ◌≡◌, refl, inl, inr, ◌⊎◌, Bool-cases, Option-cases,
  unwrap_or, and_then,
}
use wirefinder.Prelude.Lists.{is_empty}
use wirefinder.Text.{Text, trim}
use wirefinder.Result.{ok, err, Result-cases, to_option}
use wirefinder.External.{External, SocketAddr}
use wirefinder.Exec.{pure, attempt, raise, lift, ◌>>=◌}
use wirefinder.Keys
use wirefinder.Proto.{ServerSpec}
use wirefinder.Config.{ServerConfig, find_server, upsert_server}
use wirefinder.Config.Names.{upsert_server-placed}
use wirefinder.Config.Store.{Codec, save}
use wirefinder.Config.Store.Fs.{FilePath}
use wirefinder.Config.Store.Atomic.{IsSaved}
use wirefinder.Config.Store.Recovery.{save-IsSaved}
use wirefinder.Wireguard.{Wireguard}
use wirefinder.Wireguard.Validate.{validate_server}
use wirefinder.Daemon.State.{Moment, Daemon, on_backend, get_cfg, set_cfg, persist}
use wirefinder.Daemon.Servers.{
  supplied, server_of, edited, is_key, commit, add_server, edit_server, active_public_key,
}

-- With the address that it resolved to.
abbrev pub cached : External → ServerConfig → SocketAddr → ServerConfig
cached x s addr = record s { resolved_endpoint = some (x.show_socket_addr addr) }

-- The stored form of a spec that is added: its name trimmed, the supplied key, trimmed, or a
-- generated one, and a port that is not given as 0.
abbrev pub added : Moment → ServerSpec → ServerConfig
added m spec = record {
  name = trim spec.name;
  private_key = unwrap_or (supplied spec.private_key) m.generated;
  public_key = spec.public_key;
  endpoint = spec.endpoint;
  resolved_endpoint = none;
  addresses = spec.addresses;
  allowed_ips = spec.allowed_ips;
  listen_port = unwrap_or spec.listen_port 0;
  mtu = spec.mtu;
  keepalive = spec.keepalive;
  preshared_key = spec.preshared_key;
  dns = spec.dns;
}

abbrev pub preferred : Option Text → Option Text → Option Text
preferred none old = old
preferred (some k) old = some k

-- The stored form of a spec that edits a server: the secrets that are not supplied are kept.
abbrev pub edited_from : ServerSpec → ServerConfig → ServerConfig
edited_from spec existing = record {
  name = trim spec.name;
  private_key = unwrap_or (supplied spec.private_key) existing.private_key;
  public_key = spec.public_key;
  endpoint = spec.endpoint;
  resolved_endpoint = none;
  addresses = spec.addresses;
  allowed_ips = spec.allowed_ips;
  listen_port = unwrap_or spec.listen_port 0;
  mtu = spec.mtu;
  keepalive = spec.keepalive;
  preshared_key = preferred (supplied spec.preshared_key) existing.preshared_key;
  dns = spec.dns;
}

module _ (x : External) (codec : Codec) (path : FilePath) {S : Type 0} where
  -- From `d` to `t` the server was validated, stored under its name, and saved.
  pub record IsCommitted (m : Moment) (s : ServerConfig) (d t : Daemon S) : Type 0 where
    pub addr : SocketAddr
    pub valid : validate_server x m.resolve s ≡ ok addr
    pub stored : t.cfg ≡ (upsert_server d.cfg (cached x s addr)).0
    pub saved : IsSaved codec path t.cfg t.disk.files

  commit_ok :
      (m : Moment) (s : ServerConfig) (d : Daemon S)
      → (commit x codec path m s d).0 ≡ ok tt
      → IsCommitted m s d (commit x codec path m s d).1
  unfolding commit ◌>>=◌ lift get_cfg set_cfg persist
  commit_ok m s d = elim (Result-cases (validate_server x m.resolve s)) [
    | inl (addr, e) ↦ rw e λ h. record {
      addr = addr;
      valid = e;
      stored = refl;
      saved = save-IsSaved codec path _ d.disk h;
    }
    | inr (e, bad) ↦ rw bad λ h. absurd (cc h)
  ]

  -- A commit that fails has left the daemon as it was, or has stored the server and failed to save.
  commit_failed :
      (m : Moment) (s : ServerConfig) (d : Daemon S) {e : Text}
      → (commit x codec path m s d).0 ≡ err e
      → ((commit x codec path m s d).1 ≡ d)
        ⊎ ((addr : SocketAddr) × (validate_server x m.resolve s ≡ ok addr)
            × ((commit x codec path m s d).1.cfg ≡ (upsert_server d.cfg (cached x s addr)).0)
            × ((save codec path (upsert_server d.cfg (cached x s addr)).0 d.disk).0 ≡ err e))
  unfolding commit ◌>>=◌ lift get_cfg set_cfg persist
  commit_failed m s d = elim (Result-cases (validate_server x m.resolve s)) [
    | inl (addr, e) ↦ rw e λ h. inr (addr, refl, refl, h)
    | inr (e, bad) ↦ rw bad λ h. inl refl
  ]

  -- An addition that returns had a name that is not blank; the spec's values, under its trimmed name
  -- and with a generated key if it supplies none, were validated, stored, and saved.
  pub add_server_ok :
      (m : Moment) (spec : ServerSpec) (d : Daemon S)
      → (add_server x codec path m spec d).0 ≡ ok tt
      → (is_empty (trim spec.name) ≡ false)
        × IsCommitted m (added m spec) d (add_server x codec path m spec d).1
  unfolding add_server raise server_of
  add_server_ok m spec d = elim (Bool-cases (is_empty (trim spec.name))) [
    | inl blank ↦ rw blank λ h. absurd (cc h)
    | inr fine ↦ rw fine λ h. (refl, commit_ok m _ d h)
  ]

  -- An addition that fails has left the daemon as it was, or the server is stored and only
  -- saving it failed.
  pub add_server_failed :
      (m : Moment) (spec : ServerSpec) (d : Daemon S) {e : Text}
      → (add_server x codec path m spec d).0 ≡ err e
      → ((add_server x codec path m spec d).1 ≡ d)
        ⊎ ((addr : SocketAddr) × (validate_server x m.resolve (added m spec) ≡ ok addr)
            × ((add_server x codec path m spec d).1.cfg
                ≡ (upsert_server d.cfg (cached x (added m spec) addr)).0)
            × ((save codec path (upsert_server d.cfg (cached x (added m spec) addr)).0 d.disk).0
                ≡ err e))
  unfolding add_server raise server_of
  add_server_failed m spec d = elim (Bool-cases (is_empty (trim spec.name))) [
    | inl blank ↦ rw blank λ h. inl refl
    | inr fine ↦ rw fine λ h. commit_failed m _ d h
  ]

module _ (x : External) (codec : Codec) (path : FilePath) {S : Type 0} (wg : Wireguard S) where
  -- The key that the backend reports for the interface, if it can be read.
  abbrev pub live_key : Daemon S → Option Text
  live_key d = and_then (to_option (wg.status d.backend).0) (λ l. l.public_key)

  pub record IsEdited (m : Moment) (spec : ServerSpec) (d t : Daemon S) : Type 0 where
    pub existing : ServerConfig
    pub key : Text
    pub was : find_server d.cfg (trim spec.name) ≡ some existing
    pub key_ok : Keys.public_key x existing.private_key ≡ ok key
    pub inactive : is_key (live_key d) key ≡ false
    pub committed : IsCommitted x codec path m (edited_from spec existing) d t
    pub placed : map (λ s. s.name) t.cfg.servers ≡ map (λ s. s.name) d.cfg.servers

  moved :
      (m : Moment) (s : ServerConfig) (d : Daemon S) (b : S) {t : Daemon S}
      → IsCommitted x codec path m s (record d { backend = b }) t
      → IsCommitted x codec path m s d t
  moved m s d b c = record { addr = c.addr; valid = c.valid; stored = c.stored; saved = c.saved }

  edited-edited_from : (spec : ServerSpec) (s : ServerConfig) → edited spec s ≡ edited_from spec s
  unfolding edited server_of
  edited-edited_from spec s = elim (Option-cases (supplied spec.preshared_key)) [
    | inl blank ↦ rw blank refl
    | inr (k, given) ↦ rw given refl
  ]

  edited-IsCommitted :
      (m : Moment) (spec : ServerSpec) (s : ServerConfig) (d : Daemon S) (b : S)
      → (commit x codec path m (edited spec s) (record d { backend = b })).0 ≡ ok tt
      → IsCommitted x codec path m
          (edited_from spec s)
          d
          (commit x codec path m (edited spec s) (record d { backend = b })).1
  edited-IsCommitted m spec s d b h =
      subst
        (λ e.
          IsCommitted x codec path m e d
            (commit x codec path m (edited spec s) (record d { backend = b })).1)
        (edited-edited_from spec s)
        (moved m (edited spec s) d b (commit_ok x codec path m (edited spec s) _ h))

  -- An edit that returns was of a stored server whose key is not that of the live interface; the
  -- spec's values, under its trimmed name and with the secrets that it does not supply kept, were
  -- validated, stored in the place of that server, the names of the servers and their order being as
  -- they were, and saved.
  pub edit_server_ok :
      (m : Moment) (spec : ServerSpec) (d : Daemon S)
      → (edit_server x codec path wg m spec d).0 ≡ ok tt
      → IsEdited m spec d (edit_server x codec path wg m spec d).1
  unfolding edit_server ◌>>=◌ get_cfg active_public_key on_backend lift attempt pure raise
  edit_server_ok m spec d = elim (Bool-cases (is_empty (trim spec.name))) [
    | inl blank ↦ rw blank λ h. absurd (cc h)
    | inr fine ↦ elim (Option-cases (find_server d.cfg (trim spec.name))) [
      | inl missing ↦ rw (fine, missing) λ h. absurd (cc h)
      | inr (s, there) ↦ elim (Result-cases (Keys.public_key x s.private_key)) [
        | inr (e, bad) ↦ rw (fine, there, bad) λ h. absurd (cc h)
        | inl (key, good) ↦ elim (Bool-cases (is_key (live_key d) key)) [
          | inl active ↦ rw (fine, there, good, active) λ h. absurd (cc h)
          | inr inactive ↦
              rw (fine, there, good, inactive)
                λ h. record {
                  existing = s;
                  key = key;
                  was = there;
                  key_ok = good;
                  inactive = inactive;
                  committed = edited-IsCommitted m spec s d (wg.status d.backend).1 h;
                  placed =
                      let done = edited-IsCommitted m spec s d (wg.status d.backend).1 h in
                      ap (λ cfg. map (λ e. e.name) cfg.servers) done.stored
                      ∙ upsert_server-placed d.cfg (cached x (edited_from spec s) done.addr) there;
                }
        ]
      ]
    ]
  ]
