-- ===== src/Config/Names.antt =====
-- The name is the key of the configured servers: what `find_server`, `upsert_server` and
-- `remove_server` do to the list as a map from names.
use wirefinder.Prelude.{
  Bool, true, false, not, Option, some, List, map, ap, sym, [], ◌∷◌, ◌++◌, ◌≡◌, refl, arith,
  Bool-cases, inl, inr,
}
use wirefinder.Prelude.Lists.{any, find, retain}
use wirefinder.Text.{Text, equal}
use wirefinder.Text.Equality.{equal_iff, equal_sym}
use wirefinder.Config.{
  ServerConfig, Config, named, find_server, replace_first, upsert_server, remove_server,
}

-- No two servers bear one name.
abbrev pub IsUnique : List ServerConfig → Type 0
IsUnique [] = Unit
IsUnique (s ∷ ss) = (any (named s.name) ss ≡ false) × IsUnique ss

abbrev lookup : Text → List ServerConfig → Option ServerConfig
lookup name ss = find (named name) ss

any-replace_first :
    (n : Text) (server : ServerConfig) (ss : List ServerConfig)
    → any (named n) (replace_first server ss) ≡ any (named n) ss
unfolding replace_first named
any-replace_first n server [] = refl
any-replace_first n server (s ∷ ss) =
    ground (arith, equal_iff s.name server.name, any-replace_first n server ss)

replace_first-IsUnique :
    (server : ServerConfig) (ss : List ServerConfig)
    → IsUnique ss
    → IsUnique (replace_first server ss)
unfolding replace_first named
replace_first-IsUnique server [] u = tt
replace_first-IsUnique server (s ∷ ss) u = ground (
  arith,
  equal_iff s.name server.name,
  any-replace_first s.name server ss,
  replace_first-IsUnique server ss u.1,
)

any-append :
    (p : ServerConfig → Bool) (ss : List ServerConfig) (s : ServerConfig)
    → any p ss ≡ false
    → p s ≡ false
    → any p (ss ++ s ∷ []) ≡ false
any-append p [] s h k = ground arith
any-append p (t ∷ ss) s h k = ground (arith, any-append p ss s)

append-IsUnique :
    (server : ServerConfig) (ss : List ServerConfig)
    → any (named server.name) ss ≡ false
    → IsUnique ss
    → IsUnique (ss ++ server ∷ [])
unfolding named
append-IsUnique server [] h u = (refl, tt)
append-IsUnique server (s ∷ ss) h u = (
  any-append (named s.name) ss server u.0 (ground (arith, equal_sym s.name server.name)),
  append-IsUnique server ss (ground arith) u.1,
)

pub upsert_server-IsUnique :
    (cfg : Config) (server : ServerConfig)
    → IsUnique cfg.servers
    → IsUnique (upsert_server cfg server).0.servers
unfolding upsert_server
upsert_server-IsUnique cfg server u = elim (Bool-cases (any (named server.name) cfg.servers)) [
  | inl old ↦ rw old (replace_first-IsUnique server cfg.servers u)
  | inr new ↦ rw new (append-IsUnique server cfg.servers new u)
]

any-retain :
    (p q : ServerConfig → Bool) (ss : List ServerConfig)
    → any p ss ≡ false
    → any p (retain q ss) ≡ false
any-retain p q [] h = refl
any-retain p q (s ∷ ss) h = ground (arith, any-retain p q ss)

retain-IsUnique :
    (q : ServerConfig → Bool) (ss : List ServerConfig) → IsUnique ss → IsUnique (retain q ss)
retain-IsUnique q [] u = tt
retain-IsUnique q (s ∷ ss) u =
    ground (arith, any-retain (named s.name) q ss u.0, retain-IsUnique q ss u.1)

pub remove_server-IsUnique :
    (cfg : Config) (name : Text)
    → IsUnique cfg.servers
    → IsUnique (remove_server cfg name).0.servers
unfolding remove_server
remove_server-IsUnique cfg name u = retain-IsUnique (λ s. not (named name s)) cfg.servers u

names-replace_first :
    (server : ServerConfig) (ss : List ServerConfig)
    → map (λ s. s.name) (replace_first server ss) ≡ map (λ s. s.name) ss
unfolding replace_first named
names-replace_first server [] = refl
names-replace_first server (s ∷ ss) = elim (Bool-cases (equal s.name server.name)) [
  | inl same ↦
      rw same (ap (λ n. n ∷ map (λ t. t.name) ss) (sym ((equal_iff s.name server.name).0 same)))
  | inr other ↦ rw other (ap (λ ns. s.name ∷ ns) (names-replace_first server ss))
]

any-found :
    (p : ServerConfig → Bool) (ss : List ServerConfig) {s : ServerConfig}
    → find p ss ≡ some s
    → any p ss ≡ true
any-found p [] h = absurd (cc h)
any-found p (t ∷ ss) {s} h = ground (arith, any-found p ss {s = s})

-- A server whose name is there takes the place of the one that bears it.
pub upsert_server-placed :
    (cfg : Config) (server : ServerConfig) {s : ServerConfig}
    → find_server cfg server.name ≡ some s
    → map (λ t. t.name) (upsert_server cfg server).0.servers ≡ map (λ t. t.name) cfg.servers
unfolding upsert_server find_server
upsert_server-placed cfg server there =
    rw (any-found (named server.name) cfg.servers there) (names-replace_first server cfg.servers)
