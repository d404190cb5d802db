-- ===== src/Daemon/Single.antt =====
-- The product's promise of daemon/src/daemon.rs: a switch moves the single active flag.
use mathlib.Core.Option.{some-injective}
use wirefinder.Prelude.{Bool, true, some, List, [], ◌∷◌, ◌≡◌, refl, sym, ap, ◌∙◌, arith}
use wirefinder.Prelude.Lists.{any, find, All}
use wirefinder.Text.{Text, equal}
use wirefinder.Text.Equality.{equal_iff}
use wirefinder.Result.{Result, ok}
use wirefinder.External.{External, SocketAddr, Resolver}
use wirefinder.Keys.{public_key}
use wirefinder.Config.{ServerConfig, Config, named, find_server}
use wirefinder.Config.Store.{Codec}
use wirefinder.Config.Store.Fs.{FilePath}
use wirefinder.Wireguard.{LiveInterface, Wireguard}
use wirefinder.Wireguard.Kernel.{WgOps, kernel_wireguard}
use wirefinder.Wireguard.Kernel.System.{Views, IsSystem, IsReadable}
use wirefinder.Wireguard.Kernel.Reports.{Speaks, switch-Speaks}
use wirefinder.Daemon.State.{Moment, Daemon, is_connecting}
use wirefinder.Daemon.Status.{list_servers}
use wirefinder.Daemon.Handle.{switch_server}
use wirefinder.Daemon.Directory.{Touches}
use wirefinder.Daemon.Changes.{Change, same, stored, removed, refreshed, switch_server-Change}
use wirefinder.Daemon.Invariant.{IsConfigured, All-cache_endpoint, any-cache_endpoint}
use wirefinder.Daemon.Tunnel.{switch_server_ok}
use wirefinder.Daemon.Active.{
  Fits, Fits-resolved_endpoint, list-Flags, find-IsThe, HasOwnKey, servers-Fits,
}

module _ (x : External) {S : Type 0} (wg : Wireguard S) where
  -- After a switch that succeeds the interface can be read, and speaks for the server.
  pub record Announces : Type 0 where
    pub announced :
        (resolve : Resolver) (server : ServerConfig) (s : S) (addr : SocketAddr) (t : S)
        → wg.switch resolve server s ≡ (ok addr, t)
        → (live : LiveInterface) × (u : S) × (wg.status t ≡ (ok live, u)) × Speaks x server live

-- The backend of the kernel does, where its operations have their documented effect and a
-- configured interface can be read.
pub kernel_wireguard-Announces :
    (x : External) {S : Type 0} (ops : WgOps x.Key S) (v : Views x.Key S)
    → IsSystem x ops v
    → IsReadable x ops v
    → Announces x (kernel_wireguard x ops)
kernel_wireguard-Announces x ops v system readable = record {
  announced = λ resolve server s addr t h.
      let (live, e, speaks) = switch-Speaks x ops v system readable resolve server s h in
      (live, t, e, speaks);
}

module _ (x : External) (name key : Text) where
  Change-Fits :
      {c c' : Config}
      → Change x (Touches name) c c'
      → All (Fits x name key) c.servers
      → All (Fits x name key) c'.servers
        × (any (named name) c'.servers ≡ any (named name) c.servers)
  Change-Fits (same p e) h = rw e (h, refl)
  Change-Fits (stored s p a b e) h = absurd p
  Change-Fits (removed n p e) h = absurd p
  Change-Fits {c} (refreshed n addr p e) h = rw e (
    All-cache_endpoint (Fits x name key) n addr c.servers
        (λ s f. Fits-resolved_endpoint x name key s (some addr) f) h,
    any-cache_endpoint name n addr c.servers,
  )

find-any :
    (p : ServerConfig → Bool) (ss : List ServerConfig) {s : ServerConfig}
    → find p ss ≡ some s
    → (any p ss ≡ true) × (p s ≡ true)
find-any p [] h = absurd (cc h)
find-any p (t ∷ ss) {s} h = ground (arith, find-any p ss {s = s})

module _ (x : External) (codec : Codec) (path : FilePath) {S : Type 0} (wg : Wireguard S) where
  -- If the backend's interface speaks for a server after a switch to it that succeeds, the stored
  -- servers are configured well and no other has the server's own key, then after a switch
  -- request to that server that succeeds the list shows as active the server of that name, and
  -- no other.
  pub switch_server-Flags :
      (m later : Moment) (name : Text) (d : Daemon S) (server : ServerConfig)
      → Announces x wg
      → IsConfigured x d.cfg
      → find_server d.cfg name ≡ some server
      → HasOwnKey x server d.cfg.servers
      → (switch_server x codec path wg m name d).0 ≡ ok tt
      → let infos = (list_servers x wg later (switch_server x codec path wg m name d).1).0 in
        All (λ i. i.active ≡ equal i.name name) infos × (any (λ i. i.active) infos ≡ true)
  unfolding list_servers find_server named
  switch_server-Flags m later name d server announces configured there own h =
      let sw = switch_server_ok x codec path wg m name d h in
      let same_server : sw.server ≡ server = some-injective _ _ (sym sw.there ∙ there) in
      let (live, u, e, speaks) =
        announces.announced m.resolve sw.server d.backend sw.endpoint
          (switch_server x codec path wg m name d).1.backend
          (λ i. (sw.moved i, sym sw.backend i)) in
      let (found, bears) = find-any (named name) d.cfg.servers there in
      let fits =
        servers-Fits x name speaks.key server
          (ap (λ (t : ServerConfig). public_key x t.private_key) (sym same_server) ∙ speaks.derived)
          ((equal_iff server.name name).0 bears) d.cfg.servers configured.sound
          (find-IsThe name server d.cfg.servers configured.unique there) own in
      let (after, still) =
        Change-Fits x name speaks.key (switch_server-Change x codec path wg m name d) fits in
      let (flags, some_flag) =
        list-Flags x name speaks.key later live
          (is_connecting later (switch_server x codec path wg m name d).1)
          (switch_server x codec path wg m name d).1.cfg.servers speaks.own after in
      rw (ap (λ (p : Result LiveInterface × S). p.0) e) (flags, some_flag ∙ still ∙ found)
