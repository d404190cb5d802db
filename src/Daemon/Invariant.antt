-- ===== src/Daemon/Invariant.antt =====
-- The invariant of the configured servers: unique names, and only servers that were validated.
use wirefinder.Prelude.{Bool, not, some, List, [], ◌∷◌, ◌≡◌, refl, inl, inr, arith, Bool-cases}
use wirefinder.Prelude.Lists.{any, retain, All, All-append}
use wirefinder.Text.{Text}
use wirefinder.External.{External}
use wirefinder.Proto.{Request}
use wirefinder.Config
use wirefinder.Config.{ServerConfig, Config, default, named, replace_first, upsert_server}
use wirefinder.Config.Names.{IsUnique, upsert_server-IsUnique, remove_server-IsUnique}
use wirefinder.Config.Store.{Codec}
use wirefinder.Config.Store.Fs.{FilePath}
use wirefinder.Wireguard.{Wireguard}
use wirefinder.Wireguard.Sound.{IsSound, IsSound-resolved_endpoint}
use wirefinder.Daemon.Directory.{Edit}
use wirefinder.Daemon.State.{Moment, Daemon}
use wirefinder.Daemon.Handle.{cache_endpoint, handle}
use wirefinder.Daemon.Changes.{IsNamed, Change, same, stored, removed, refreshed, handle-Change}

All-replace_first {ℓ} :
    (P : ServerConfig → Type ℓ) (s : ServerConfig) (ss : List ServerConfig)
    → P s
    → All P ss
    → All P (replace_first s ss)
unfolding replace_first
All-replace_first P s [] p h = h
All-replace_first P s (t ∷ ss) p h = elim (Bool-cases (named s.name t)) [
  | inl here ↦ rw here (p, h.1)
  | inr later ↦ rw later (h.0, All-replace_first P s ss p h.1)
]

All-upsert_server {ℓ} :
    (P : ServerConfig → Type ℓ) (c : Config) (s : ServerConfig)
    → P s
    → All P c.servers
    → All P (upsert_server c s).0.servers
unfolding upsert_server
All-upsert_server P c s p h = elim (Bool-cases (any (named s.name) c.servers)) [
  | inl old ↦ rw old (All-replace_first P s c.servers p h)
  | inr new ↦ rw new (All-append P c.servers (s ∷ []) h (p, tt))
]

All-retain {ℓ} :
    (P : ServerConfig → Type ℓ) (q : ServerConfig → Bool) (ss : List ServerConfig)
    → All P ss
    → All P (retain q ss)
All-retain P q [] h = h
All-retain P q (s ∷ ss) h = elim (Bool-cases (q s)) [
  | inl kept ↦ rw kept (h.0, All-retain P q ss h.1)
  | inr dropped ↦ rw dropped (All-retain P q ss h.1)
]

All-remove_server {ℓ} :
    (P : ServerConfig → Type ℓ) (c : Config) (name : Text)
    → All P c.servers
    → All P (Config.remove_server c name).0.servers
unfolding Config.remove_server
All-remove_server P c name h = All-retain P (λ s. not (named name s)) c.servers h

pub All-cache_endpoint {ℓ} :
    (P : ServerConfig → Type ℓ) (name addr : Text) (ss : List ServerConfig)
    → ((s : ServerConfig) → P s → P (record s { resolved_endpoint = some addr }))
    → All P ss
    → All P (cache_endpoint name addr ss)
unfolding cache_endpoint
All-cache_endpoint P name addr [] k h = h
All-cache_endpoint P name addr (s ∷ ss) k h = elim (Bool-cases (named name s)) [
  | inl here ↦ rw here (k s h.0, h.1)
  | inr later ↦ rw later (h.0, All-cache_endpoint P name addr ss k h.1)
]

pub any-cache_endpoint :
    (n name addr : Text) (ss : List ServerConfig)
    → any (named n) (cache_endpoint name addr ss) ≡ any (named n) ss
unfolding cache_endpoint named
any-cache_endpoint n name addr [] = refl
any-cache_endpoint n name addr (s ∷ ss) = ground (arith, any-cache_endpoint n name addr ss)

cache_endpoint-IsUnique :
    (name addr : Text) (ss : List ServerConfig)
    → IsUnique ss
    → IsUnique (cache_endpoint name addr ss)
unfolding cache_endpoint
cache_endpoint-IsUnique name addr [] u = tt
cache_endpoint-IsUnique name addr (s ∷ ss) u =
    ground (arith, any-cache_endpoint s.name name addr ss, cache_endpoint-IsUnique name addr ss u.1)

module _ (x : External) where
  -- Names are unique, not blank and trimmed, and every key, address, allowed IP and resolver of
  -- every server parses.
  pub record IsConfigured (c : Config) : Type 0 where
    pub unique : IsUnique c.servers
    pub sound : All (IsSound x) c.servers
    pub names : All IsNamed c.servers

  pub default-IsConfigured : IsConfigured default
  default-IsConfigured = record { unique = tt; sound = tt; names = tt }

  pub Change-IsConfigured :
      {P : Edit → Type 0} {c c' : Config} → Change x P c c' → IsConfigured c → IsConfigured c'
  Change-IsConfigured (same allow e) h = rw e h
  Change-IsConfigured {c} (stored s allow p n e) h = rw e (record {
    unique = upsert_server-IsUnique c s h.unique;
    sound = All-upsert_server (IsSound x) c s p h.sound;
    names = All-upsert_server IsNamed c s n h.names;
  })
  Change-IsConfigured {c} (removed name allow e) h = rw e (record {
    unique = remove_server-IsUnique c name h.unique;
    sound = All-remove_server (IsSound x) c name h.sound;
    names = All-remove_server IsNamed c name h.names;
  })
  Change-IsConfigured {c} (refreshed name addr allow e) h = rw e (record {
    unique = cache_endpoint-IsUnique name addr c.servers h.unique;
    sound =
        All-cache_endpoint (IsSound x) name addr c.servers
          (λ s p. IsSound-resolved_endpoint x s (some addr) p) h.sound;
    names =
        All-cache_endpoint IsNamed name addr c.servers
          (λ s n. record { not_blank = n.not_blank; trimmed = n.trimmed }) h.names;
  })

-- The requests that one daemon is given, each with its moment.
abbrev pub Traffic : Type 0
Traffic = List (Moment × Request)

module _ (x : External) (codec : Codec) (path : FilePath) {S : Type 0} (wg : Wireguard S) where
  unfoldable pub handle_all : Traffic → Daemon S → Daemon S
  handle_all [] d = d
  handle_all ((m, req) ∷ rest) d = handle_all rest (handle x codec path wg m req d).1

  -- If the names of the configured servers are unique, trimmed and not blank, and every key, address,
  -- allowed IP and resolver of every server parses, then this is so after any requests, whatever
  -- their outcomes, the faults of the disk, the answers of the resolver and the backend's behaviour.
  pub handle_all-IsConfigured :
      (traffic : Traffic) (d : Daemon S)
      → IsConfigured x d.cfg
      → IsConfigured x (handle_all traffic d).cfg
  unfolding handle_all
  handle_all-IsConfigured [] d h = h
  handle_all-IsConfigured ((m, req) ∷ rest) d h =
      handle_all-IsConfigured rest (handle x codec path wg m req d).1
        (Change-IsConfigured x (handle-Change x codec path wg m req d) h)
