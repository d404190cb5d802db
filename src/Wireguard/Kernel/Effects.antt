-- ===== src/Wireguard/Kernel/Effects.antt =====
-- What the steps of a switch (daemon/src/wireguard.rs) do to the views of the system.
use mathlib.Core.Path.{subst}
use wirefinder.Prelude.{ℕ, Option, none, some, List, [], ◌∷◌, ◌≡◌, refl, ap, ◌∙◌, ◌⊎◌, inl, inr}
use wirefinder.Text.{Text}
use wirefinder.Result.{Result, ok, err}
use wirefinder.External.{External, IpAddr, IpAddrMask, Peer, InterfaceConfiguration, Host}
use wirefinder.Exec.{Exec, lift, attempt}
use wirefinder.Exec.Inversion.{bind-eq-ok, lift-eq-ok, attempt-eq-ok, pure-eq-ok}
use wirefinder.Config.{ServerConfig}
use wirefinder.Wireguard.Validate.{build_interface_config}
use wirefinder.Wireguard.Kernel.{WgOps, configure, apply_dns}
use wirefinder.Wireguard.Kernel.Recording.{config, perform, replay}
use wirefinder.Wireguard.Kernel.Plan.{mark_of, bring_up}
use wirefinder.Wireguard.Kernel.System.{unmarked, Views, IsSystem}

-- The state that a run leaves.
pub ran : {S A : Type 0} (m : Exec S A) (s : S) {r : Result A} {t : S} → m s ≡ (r, t) → (m s).1 ≡ t
ran {S} {A} m s h = ap (λ (p : Result A × S). p.1) h

module _ (x : External) {S : Type 0} (ops : WgOps x.Key S) (v : Views x.Key S)
    (system : IsSystem x ops v) where
  open v use {interface, mark, routed, filter, resolver}

  -- The resolver is the tunnel's, unless there was nothing to set and the reset of it failed.
  pub record IsResolved (servers : List IpAddr) (s t : S) : Type 0 where
    pub resolved :
        (resolver t ≡ servers) ⊎ ((servers ≡ []) × (e : Text) × (ops.reset_dns s ≡ (err e, t)))

  pub record IsDns (servers : List IpAddr) (s t : S) : Type 0 where
    pub interface_as : interface t ≡ interface s
    pub mark_as : mark t ≡ mark s
    pub routed_as : routed t ≡ routed s
    pub filter_as : filter t ≡ filter s
    pub resolver_is : IsResolved servers s t

  reset-IsDns : (s : S) {r : Result (Unit {0})} {t : S} → ops.reset_dns s ≡ (r, t) → IsDns [] s t
  reset-IsDns s {r} {t} h = record {
    interface_as = system.interface_reset s r t h;
    mark_as = system.mark_reset s r t h;
    routed_as = system.routed_reset s r t h;
    filter_as = system.filter_reset s r t h;
    resolver_is = resolver_reset r h;
  }
    where
      resolver_reset : (q : Result (Unit {0})) → ops.reset_dns s ≡ (q, t) → IsResolved [] s t
      resolver_reset (ok tt) e = record { resolved = inl (system.resets s t e) }
      resolver_reset (err e) f = record { resolved = inr (refl, e, f) }

  pub apply_dns-IsDns :
      (servers : List IpAddr) (s : S) {t : S}
      → apply_dns x ops servers s ≡ (ok tt, t)
      → IsDns servers s t
  unfolding apply_dns
  apply_dns-IsDns [] s h =
      let (r, u, tried, k) = bind-eq-ok (attempt ops.reset_dns) _ s h in
      subst (IsDns [] s) (pure-eq-ok tt u k) (reset-IsDns s (attempt-eq-ok ops.reset_dns s tried))
  apply_dns-IsDns (d ∷ ds) s {t} h = record {
    interface_as = system.interface_dns (d ∷ ds) [] s _ t h;
    mark_as = system.mark_dns (d ∷ ds) [] s _ t h;
    routed_as = system.routed_dns (d ∷ ds) [] s _ t h;
    filter_as = system.filter_dns (d ∷ ds) [] s _ t h;
    resolver_is = record { resolved = inl (system.resolves (d ∷ ds) [] s t h) };
  }

  pub record IsBrought (server : ServerConfig) (peer : Peer x.Key) (first : Result (Host x.Key))
      (s t : S) : Type 0 where
    pub cfg : InterfaceConfiguration x.Key
    pub cfg_ok : build_interface_config x server (peer ∷ []) (mark_of first) ≡ ok cfg
    pub interface_is : interface t ≡ some (unmarked cfg)
    pub brought : replay ops (bring_up first cfg) s ≡ t

  pub configure-IsBrought :
      (server : ServerConfig) (peer : Peer x.Key) (first : Result (Host x.Key)) (s : S) {t : S}
      → configure x ops server peer first s ≡ (ok tt, t)
      → IsBrought server peer first s t
  unfolding configure
  configure-IsBrought server peer (ok host) s {t} h =
      let (cfg, u, e, k) =
        bind-eq-ok (lift (build_interface_config x server (peer ∷ []) host.fwmark)) _ s h in
      let (cfg_ok, same) = lift-eq-ok _ s e in
      record {
        cfg = cfg;
        cfg_ok = cfg_ok;
        interface_is = system.configures cfg u t k;
        brought = ap (perform ops (config cfg)) same ∙ ran (ops.configure_interface cfg) u k;
      }
  configure-IsBrought server peer (err bad) s {t} h =
      let (cfg, u, e, k) =
        bind-eq-ok (lift (build_interface_config x server (peer ∷ []) none)) _ s h in
      let (cfg_ok, same) = lift-eq-ok _ s e in
      let (_, w, made, k2) = bind-eq-ok (attempt ops.create_interface) _ u k in
      let (_, z, set, k3) = bind-eq-ok (ops.configure_interface cfg) _ w k2 in
      record {
        cfg = cfg;
        cfg_ok = cfg_ok;
        interface_is =
            subst (λ q. interface q ≡ some (unmarked cfg)) (pure-eq-ok tt z k3)
              (system.configures cfg w z set);
        brought =
            ap (replay ops (bring_up (err bad) cfg)) same
            ∙ ap (perform ops (config cfg))
                (ran ops.create_interface u (attempt-eq-ok ops.create_interface u made))
            ∙ ran (ops.configure_interface cfg) w set
            ∙ pure-eq-ok tt z k3;
      }

  -- The packet filter and the resolver are set last, and leave the rest alone.
  pub record IsGuarded (own : List IpAddrMask) (m : Option ℕ) (servers : List IpAddr) (s u t : S)
      : Type 0 where
    pub interface_as : interface t ≡ interface s
    pub mark_as : mark t ≡ mark s
    pub routed_as : routed t ≡ routed s
    pub filter_is : filter t ≡ some (record { own = own; mark = m })
    pub resolver_is : IsResolved servers u t

  pub guard-IsGuarded :
      (own : List IpAddrMask) (servers : List IpAddr) (m : Option ℕ) (s u t : S)
      → ops.apply_firewall own m s ≡ (ok tt, u)
      → apply_dns x ops servers u ≡ (ok tt, t)
      → IsGuarded own m servers s u t
  guard-IsGuarded own servers m s u t e f =
      let quiet = apply_dns-IsDns servers u f in
      record {
        interface_as = quiet.interface_as ∙ system.interface_filter own m s _ u e;
        mark_as = quiet.mark_as ∙ system.mark_filter own m s _ u e;
        routed_as = quiet.routed_as ∙ system.routed_filter own m s _ u e;
        filter_is = quiet.filter_as ∙ system.filters own m s u e;
        resolver_is = quiet.resolver_is;
      }
