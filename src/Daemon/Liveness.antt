-- ===== src/Daemon/Liveness.antt =====
-- A switch request to a configured server (daemon/src/daemon.rs), over the backend of the kernel
-- (daemon/src/wireguard.rs): when it is answered well.
use mathlib.Core.Path.{subst}
use mathlib.Core.Option.{some-injective}
use wirefinder.Prelude.{Bool, some, List, [], ◌∷◌, ◌≡◌, ap, ◌∙◌, inl, inr, Bool-cases}
use wirefinder.Prelude.Lists.{find, All}
use wirefinder.Text.{Text}
use wirefinder.Result.{ok}
use wirefinder.External.{External, SocketAddr}
use wirefinder.Proto.{Request, Response}
use wirefinder.Config.{ServerConfig, named, find_server}
use wirefinder.Config.Store.{Codec}
use wirefinder.Config.Store.Fs.{FilePath}
use wirefinder.Wireguard.Validate.{endpoint_addr}
use wirefinder.Wireguard.Sound.{IsSound, validate_server-eq-endpoint}
use wirefinder.Wireguard.Kernel.{WgOps, kernel_wireguard}
use wirefinder.Wireguard.Kernel.Success.{IsWilling, switch-Returns}
use wirefinder.Daemon.State.{Moment, Daemon}
use wirefinder.Daemon.Handle.{handle, reply}
use wirefinder.Daemon.Invariant.{IsConfigured}
use wirefinder.Daemon.Tunnel.{switch_server_returns}

All-find {ℓ} :
    (P : ServerConfig → Type ℓ) (p : ServerConfig → Bool) (ss : List ServerConfig)
    {s : ServerConfig}
    → All P ss
    → find p ss ≡ some s
    → P s
All-find P p [] all h = absurd (cc h)
All-find P p (t ∷ ss) all h = elim (Bool-cases (p t)) [
  | inl here ↦ subst P (some-injective _ _ (rw here at h)) all.0
  | inr later ↦ All-find P p ss all.1 (rw later at h)
]

-- If every stored server validated, the named one is stored and its endpoint resolves or has an
-- address cached, and the kernel operations that a switch needs succeed: a request to switch to it is
-- answered with its name, whatever comes of the readings of the interface, of its creation, of a
-- reset of the resolver and of the saving of the cached address.
pub handle-switched :
    (x : External) (codec : Codec) (path : FilePath) {S : Type 0} (ops : WgOps x.Key S) (m : Moment)
    (name : Text) (d : Daemon S) (server : ServerConfig) (addr : SocketAddr)
    → IsWilling ops
    → IsConfigured x d.cfg
    → find_server d.cfg name ≡ some server
    → endpoint_addr x m.resolve server ≡ ok addr
    → (handle x codec path (kernel_wireguard x ops) m (Request.switch_server name) d).0
      ≡ Response.switched name
unfolding handle find_server
handle-switched x codec path ops m name d server addr willing configured there resolves =
    let sound = All-find (IsSound x) (named name) d.cfg.servers configured.sound there in
    let valid = validate_server-eq-endpoint x m.resolve server sound ∙ resolves in
    ap (reply (λ _. Response.switched name)) (
      switch_server_returns x codec path (kernel_wireguard x ops) m name d server addr there
        ((switch-Returns x ops willing m.resolve server valid).at d.backend))
