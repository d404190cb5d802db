-- ===== src/Config/Lookup.antt =====
-- The configured servers as a map from names: lookups after an upsert and after a removal, and
-- what the flags of the two report.
use wirefinder.Prelude.{
  ◌≤◌, Bool, true, false, not, ◌==◌, none, some, List, [], ◌∷◌, ◌++◌, ◌≡◌, refl, sym, arith,
  Bool-cases, inl, inr, ◌∙◌, if◌then◌else◌, is_some,
}
use wirefinder.Prelude.Lists.{any, find, retain, length}
use wirefinder.Text.{Text, equal}
use wirefinder.Text.Equality.{equal_iff}
use wirefinder.Config.{
  ServerConfig, Config, named, find_server, replace_first, upsert_server, remove_server,
}

find-replace_first :
    (name : Text) (server : ServerConfig) (ss : List ServerConfig)
    → any (named server.name) ss ≡ true
    → find (named name) (replace_first server ss)
      ≡ (if equal server.name name then some server else find (named name) ss)
unfolding replace_first named
find-replace_first name server [] h = cc
find-replace_first name server (s ∷ ss) h = ground (
  arith,
  equal_iff s.name server.name,
  equal_iff server.name name,
  equal_iff s.name name,
  find-replace_first name server ss,
)

find-append :
    (name : Text) (server : ServerConfig) (ss : List ServerConfig)
    → any (named server.name) ss ≡ false
    → find (named name) (ss ++ server ∷ [])
      ≡ (if equal server.name name then some server else find (named name) ss)
unfolding named
find-append name server [] h = ground arith
find-append name server (s ∷ ss) h = ground (
  arith,
  equal_iff s.name server.name,
  equal_iff server.name name,
  equal_iff s.name name,
  find-append name server ss,
)

-- After an upsert the name of the server leads to it, and every other name to what it led to.
pub find_server-upsert_server :
    (cfg : Config) (server : ServerConfig) (name : Text)
    → find_server (upsert_server cfg server).0 name
      ≡ (if equal server.name name then some server else find_server cfg name)
unfolding find_server upsert_server
find_server-upsert_server cfg server name =
    elim (Bool-cases (any (named server.name) cfg.servers)) [
      | inl old ↦ rw old (find-replace_first name server cfg.servers old)
      | inr new ↦ rw new (find-append name server cfg.servers new)
    ]

find-retain :
    (name other : Text) (ss : List ServerConfig)
    → find (named other) (retain (λ s. not (named name s)) ss)
      ≡ (if equal name other then none else find (named other) ss)
unfolding named
find-retain name other [] = ground arith
find-retain name other (s ∷ ss) = ground (
  arith,
  equal_iff s.name name,
  equal_iff name other,
  equal_iff s.name other,
  find-retain name other ss,
)

-- After a removal the name leads nowhere, and every other name to what it led to.
pub find_server-remove_server :
    (cfg : Config) (name other : Text)
    → find_server (remove_server cfg name).0 other
      ≡ (if equal name other then none else find_server cfg other)
unfolding find_server remove_server
find_server-remove_server cfg name other = find-retain name other cfg.servers

length-replace_first :
    (server : ServerConfig) (ss : List ServerConfig) → length (replace_first server ss) ≡ length ss
unfolding replace_first
length-replace_first server [] = refl
length-replace_first server (s ∷ ss) = ground (arith, length-replace_first server ss)

is_some-find :
    (name : Text) (ss : List ServerConfig) → is_some (find (named name) ss) ≡ any (named name) ss
unfolding named
is_some-find name [] = refl
is_some-find name (s ∷ ss) = ground (arith, is_some-find name ss)

-- The flag of an upsert says whether the name was there.
pub upsert_server_flag :
    (cfg : Config) (server : ServerConfig)
    → (upsert_server cfg server).1 ≡ is_some (find_server cfg server.name)
unfolding upsert_server find_server
upsert_server_flag cfg server = ground (arith, is_some-find server.name cfg.servers)

length-retain :
    (q : ServerConfig → Bool) (ss : List ServerConfig) → length (retain q ss) ≤ length ss
length-retain q [] = omega arith
length-retain q (s ∷ ss) = ground (arith, length-retain q ss)

removed_any :
    (name : Text) (ss : List ServerConfig)
    → not (length (retain (λ s. not (named name s)) ss) == length ss) ≡ any (named name) ss
unfolding named
removed_any name [] = refl
removed_any name (s ∷ ss) =
    ground (arith, removed_any name ss, length-retain (λ s. not (named name s)) ss)

-- The flag of a removal says whether the name was there.
pub remove_server_flag :
    (cfg : Config) (name : Text) → (remove_server cfg name).1 ≡ is_some (find_server cfg name)
unfolding remove_server find_server
remove_server_flag cfg name = removed_any name cfg.servers ∙ sym (is_some-find name cfg.servers)

retain-all :
    (name : Text) (ss : List ServerConfig)
    → any (named name) ss ≡ false
    → retain (λ s. not (named name s)) ss ≡ ss
unfolding named
retain-all name [] h = refl
retain-all name (s ∷ ss) h = ground (arith, retain-all name ss)

-- A removal that removes nothing leaves the configuration as it was.
pub remove_server_unknown :
    (cfg : Config) (name : Text)
    → (remove_server cfg name).1 ≡ false
    → (remove_server cfg name).0 ≡ cfg
unfolding remove_server
remove_server_unknown cfg name h =
    ground (arith, retain-all name cfg.servers, removed_any name cfg.servers)
