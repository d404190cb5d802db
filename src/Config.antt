-- ===== src/Config.antt =====
-- daemon/src/config.rs: the configured servers and their views for clients. The state file is in
-- Config/Store.
pub mod Store
pub mod Names
pub mod Lookup
use wirefinder.Prelude.{
  ℕ, Bool, true, false, not, Option, none, some, List, [], ◌∷◌, ◌++◌, ◌==◌, if◌then◌else◌, is_some,
}
use wirefinder.Prelude.Lists.{length, find, any, retain}
use wirefinder.Text.{Text, equal}
use wirefinder.Result.{Result, ok, ◌>>=◌}
use wirefinder.External.{External}
use wirefinder.Keys
use wirefinder.Proto.{ServerInfo, ServerDetail}

pub record ServerConfig : Type 0 where
  pub name : Text
  pub private_key : Text
  pub public_key : Text
  pub endpoint : Text
  pub resolved_endpoint : Option Text
  pub addresses : List Text
  pub allowed_ips : List Text
  pub listen_port : ℕ
  pub mtu : Option ℕ
  pub keepalive : Option ℕ
  pub preshared_key : Option Text
  pub dns : List Text

pub record Config : Type 0 where
  pub servers : List ServerConfig

abbrev pub default : Config
default = record { servers = [] }

unfoldable pub named : Text → ServerConfig → Bool
named name s = equal s.name name

unfoldable pub find_server : Config → Text → Option ServerConfig
unfolding named
find_server cfg name = find (named name) cfg.servers

-- `*slot = server` at the first server that bears the name
unfoldable pub replace_first : ServerConfig → List ServerConfig → List ServerConfig
unfolding named
replace_first server [] = []
replace_first server (s ∷ ss) =
    let rest = replace_first server ss in if named server.name s then server ∷ ss else s ∷ rest

-- The flag says whether a server was replaced.
unfoldable pub upsert_server : Config → ServerConfig → Config × Bool
unfolding replace_first
upsert_server cfg server =
    if any (named server.name) cfg.servers
    then (record { servers = replace_first server cfg.servers }, true)
    else (record { servers = cfg.servers ++ server ∷ [] }, false)

-- The flag says whether anything was removed.
unfoldable pub remove_server : Config → Text → Config × Bool
unfolding named
remove_server cfg name =
    let left = retain (λ s. not (named name s)) cfg.servers in
    (record { servers = left }, not (length left == length cfg.servers))

module _ (x : External) where
  unfoldable pub info : ServerConfig → Bool → Result ServerInfo
  info s active = do
    public_key ← Keys.public_key x s.private_key
    ok (record {
      name = s.name;
      endpoint = s.endpoint;
      addresses = s.addresses;
      public_key = public_key;
      active = active;
      state = none;
    })

unfoldable pub detail : ServerConfig → ServerDetail
detail s = record {
  name = s.name;
  public_key = s.public_key;
  endpoint = s.endpoint;
  addresses = s.addresses;
  allowed_ips = s.allowed_ips;
  listen_port = if not (s.listen_port == 0) then some s.listen_port else none;
  mtu = s.mtu;
  keepalive = s.keepalive;
  has_preshared_key = is_some s.preshared_key;
  dns = s.dns;
}
