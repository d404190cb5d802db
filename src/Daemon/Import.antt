-- ===== src/Daemon/Import.antt =====
-- An import (daemon/src/daemon.rs) of a wg-quick file (daemon/src/wgconf.rs), and the detail that
-- the daemon then shows (daemon/src/config.rs).
use wirefinder.Prelude.{
  ℕ, not, is_some, keep, unwrap_or, ◌==◌, Option, none, some, ◌≡◌, refl, ap, ◌∙◌, arith,
  if◌then◌else◌, map_some,
}
use wirefinder.Text.{Text, trim}
use wirefinder.Text.Trimming.{IsTrimmed-trim}
use wirefinder.Result.{ok, ok_or}
use wirefinder.Exec.{lift, ◌>>=◌}
use wirefinder.External.{External, SocketAddr}
use wirefinder.Proto.{ServerDetail}
use wirefinder.WgConf.{ParsedConfig}
use wirefinder.WgConf.Print.{print, IsPrintable, IsValue}
use wirefinder.WgConf.RoundTrip.{parse-print}
use wirefinder.Config.{ServerConfig, find_server, detail}
use wirefinder.Config.Store.{Codec}
use wirefinder.Config.Store.Fs.{FilePath}
use wirefinder.Daemon.State.{Moment, Daemon}
use wirefinder.Daemon.Servers.{
  spec_of, server_of, supplied, add_server, import_server, get_server, unknown,
}
use wirefinder.Daemon.Commit.{added, cached, add_server_ok}
use wirefinder.Daemon.Edit.{IsCommitted-find_server}

-- The detail of a configuration under a name: a port of 0 is the kernel's choice, and the preshared
-- key is only told to be there.
abbrev pub detail_of : Text → ParsedConfig → ServerDetail
detail_of name p = record {
  name = name;
  public_key = p.public_key;
  endpoint = p.endpoint;
  addresses = p.addresses;
  allowed_ips = p.allowed_ips;
  listen_port = keep (λ port. not (port == 0)) p.listen_port;
  mtu = p.mtu;
  keepalive = p.keepalive;
  has_preshared_key = is_some p.preshared_key;
  dns = p.dns;
}

-- What is stored under a name after an import of a configuration.
pub record IsImported (name : Text) (p : ParsedConfig) (s : ServerConfig) : Type 0 where
  pub private_key : s.private_key ≡ p.private_key
  pub preshared_key : s.preshared_key ≡ p.preshared_key
  pub shows : detail s ≡ detail_of name p

supplied_value : (k : Text) → IsValue k → supplied (some k) ≡ some k
supplied_value k v = ground (arith, IsTrimmed-trim k v.trimmed, v.not_empty)

shown_port :
    (port : Option ℕ)
    → (let n = unwrap_or port 0 in if not (n == 0) then some n else none)
      ≡ keep (λ n. not (n == 0)) port
shown_port none = refl
shown_port (some n) = refl

added-IsImported :
    (x : External) (m : Moment) (name : Text) (p : ParsedConfig) (addr : SocketAddr)
    → IsValue p.private_key
    → IsImported (trim name) p (cached x (added m (spec_of name p)) addr)
unfolding server_of spec_of detail
added-IsImported x m name p addr v = record {
  private_key = ap (λ k. unwrap_or k m.generated) (supplied_value p.private_key v);
  preshared_key = refl;
  shows = λ i. record (detail_of (trim name) p) { listen_port = shown_port p.listen_port i };
}

module _ (x : External) (codec : Codec) (path : FilePath) {S : Type 0} where
  -- An import of the canonical file of a configuration that returns has stored, under the trimmed
  -- name, its private and preshared key, and a query of that name is answered with its other
  -- values, a port of 0 as none.
  pub import_server-get_server :
      (m : Moment) (name : Text) (p : ParsedConfig) (d : Daemon S)
      → IsPrintable p
      → (import_server x codec path m name (print p) d).0 ≡ ok tt
      → let t = (import_server x codec path m name (print p) d).1 in
        (s : ServerConfig) × (find_server t.cfg (trim name) ≡ some s)
        × IsImported (trim name) p s
        × (get_server (trim name) t.cfg ≡ ok (detail_of (trim name) p))
  unfolding import_server ◌>>=◌ lift get_server server_of spec_of
  import_server-get_server m name p d w = rw (parse-print p w) λ h.
      let c = (add_server_ok x codec path m (spec_of name p) d h).1 in
      let there =
        IsCommitted-find_server x codec path m (added m (spec_of name p)) d
          (add_server x codec path m (spec_of name p) d).1 c in
      let imported = added-IsImported x m name p c.addr w.private_key in
      (
        cached x (added m (spec_of name p)) c.addr,
        there,
        imported,
        ap (λ found. ok_or (map_some detail found) (unknown (trim name))) there
            ∙ ap ok imported.shows,
      )
