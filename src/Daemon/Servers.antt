-- ===== src/Daemon/Servers.antt =====
-- The requests that change the configured servers: add, import, edit, remove.
use wirefinder.Prelude.{
  Bool, false, not, Option, none, some, ◌++◌, map_some, and_then, keep, unwrap_or, if◌then◌else◌,
}
use wirefinder.Prelude.Lists.{is_empty}
use wirefinder.Text.{Text, lit, equal, trim}
use wirefinder.Result.{Result, ok_or, to_option}
use wirefinder.External.{External}
use wirefinder.Exec.{Exec, pure, raise, lift, attempt, ◌>>=◌, ◌>>◌}
use wirefinder.Keys
use wirefinder.Proto.{ServerSpec, ServerDetail}
use wirefinder.WgConf
use wirefinder.WgConf.{ParsedConfig}
use wirefinder.Config
use wirefinder.Config.{ServerConfig, Config, find_server, upsert_server, detail}
use wirefinder.Config.Store.{Codec}
use wirefinder.Config.Store.Fs.{FilePath}
use wirefinder.Wireguard.{Wireguard}
use wirefinder.Wireguard.Validate.{validate_server}
use wirefinder.Daemon.State.{Moment, Daemon, on_backend, get_cfg, set_cfg, persist}

-- `k.trim().to_string()`, unless that is empty
abbrev pub supplied : Option Text → Option Text
supplied key = keep (λ k. not (is_empty k)) (map_some trim key)

-- `format!("unknown server '{name}'")`
abbrev pub unknown : Text → Text
unknown name = lit "unknown server '" ++ (name ++ lit "'")

-- The stored form of a spec, with its secrets resolved and no endpoint cached.
unfoldable pub server_of : ServerSpec → Text → Option Text → ServerConfig
server_of spec private_key preshared_key = record {
  name = trim spec.name;
  private_key = private_key;
  public_key = spec.public_key;
  endpoint = spec.endpoint;
  resolved_endpoint = none;
  addresses = spec.addresses;
  allowed_ips = spec.allowed_ips;
  listen_port = unwrap_or spec.listen_port 0;
  mtu = spec.mtu;
  keepalive = spec.keepalive;
  preshared_key = preshared_key;
  dns = spec.dns;
}

unfoldable pub spec_of : Text → ParsedConfig → ServerSpec
spec_of name parsed = record {
  name = name;
  private_key = some parsed.private_key;
  public_key = parsed.public_key;
  endpoint = parsed.endpoint;
  addresses = parsed.addresses;
  allowed_ips = parsed.allowed_ips;
  listen_port = parsed.listen_port;
  mtu = parsed.mtu;
  keepalive = parsed.keepalive;
  preshared_key = parsed.preshared_key;
  dns = parsed.dns;
}

-- `a.as_deref() == Some(key)`
abbrev pub is_key : Option Text → Text → Bool
is_key none key = false
is_key (some k) key = equal k key

unfoldable pub get_server : Text → Config → Result ServerDetail
get_server name cfg = ok_or (map_some detail (find_server cfg name)) (unknown name)

-- The secrets that the spec does not supply are those of the stored server.
unfoldable pub edited : ServerSpec → ServerConfig → ServerConfig
edited spec existing =
    server_of spec (unwrap_or (supplied spec.private_key) existing.private_key)
      (elim (supplied spec.preshared_key) [ some k ↦ some k | none ↦ existing.preshared_key ])

abbrev pub refused : Text → Text
refused name =
    lit "server '"
    ++ (name ++ lit "' is the active tunnel; disconnect or switch away before editing")

module _ (x : External) (codec : Codec) (path : FilePath) {S : Type 0} where
  -- The common end of `add_server` and `edit_server`: validate, cache the endpoint, store, persist.
  unfoldable pub commit : Moment → ServerConfig → Exec (Daemon S) (Unit {0})
  commit m server = do
    addr ← lift (validate_server x m.resolve server)
    cfg ← get_cfg
    set_cfg
        (upsert_server cfg (record server { resolved_endpoint = some (x.show_socket_addr addr) })).0
    persist codec path

  unfoldable pub add_server : Moment → ServerSpec → Exec (Daemon S) (Unit {0})
  unfolding commit
  add_server m spec =
      if is_empty (trim spec.name)
      then raise (lit "server name must not be empty")
      else commit m
          (server_of spec (unwrap_or (supplied spec.private_key) m.generated) spec.preshared_key)

  unfoldable pub import_server : Moment → Text → Text → Exec (Daemon S) (Unit {0})
  import_server m name conf = do
    parsed ← lift (WgConf.parse conf)
    add_server m (spec_of name parsed)

module _ (codec : Codec) (path : FilePath) {S : Type 0} where
  unfoldable pub remove_server : Text → Exec (Daemon S) (Unit {0})
  remove_server name = do
    cfg ← get_cfg
    let (left, removed) = Config.remove_server cfg name
    set_cfg left
    if removed then persist codec path else raise (unknown name)

-- Our public key on the live interface.
unfoldable pub active_public_key : {S : Type 0} → Wireguard S → Exec (Daemon S) (Option Text)
active_public_key wg = do
  live ← attempt (on_backend wg.status)
  pure (and_then (to_option live) (λ l. l.public_key))

module _ (x : External) (codec : Codec) (path : FilePath) {S : Type 0} (wg : Wireguard S) where
  unfoldable pub edit_server : Moment → ServerSpec → Exec (Daemon S) (Unit {0})
  edit_server m spec =
      let name = trim spec.name in
      if is_empty name then raise (lit "server name must not be empty") else do
        cfg ← get_cfg
        existing ← lift (ok_or (find_server cfg name) (unknown name))
        derived ← lift (Keys.public_key x existing.private_key)
        active ← active_public_key wg
        if is_key active derived
            then raise (refused name)
            else commit x codec path m (edited spec existing)
