-- ===== src/Wireguard/Kernel/Recording.antt =====
-- The recording backend: `WgCall` and `RecordingWg` of the tests of daemon/src/wireguard.rs, over
-- any backend instead of scripted answers; and the backend that such calls leave.
use mathlib.Core.List.{append_assoc}
use mathlib.Core.Path.{subst}
use wirefinder.Prelude.{ℕ, Option, List, [], ◌∷◌, ◌++◌, ◌≡◌, refl, sym, ap, ◌∙◌}
use wirefinder.External.{IpAddr, IpAddrMask, Peer, InterfaceConfiguration}
use wirefinder.Exec.{Exec, attempt}
use wirefinder.Exec.Inversion.{attempt-eq-ok}
use wirefinder.Result.{Result, ok}
use wirefinder.Wireguard.Kernel.{WgOps}

-- The operations, as a switch or a disconnect calls them.
pub data Call (Key : Type 0) : Type 0 where
  create remove clear reset read : Call Key
  config : InterfaceConfiguration Key → Call Key
  routing : List (Peer Key) → Call Key
  split : List IpAddrMask → Call Key
  firewall : List IpAddrMask → Option ℕ → Call Key
  dns : List IpAddr → Call Key

pub record Logged (Key S : Type 0) : Type 0 where
  pub backend : S
  pub calls : List (Call Key)

module _ {Key S : Type 0} where
  -- Any backend, with each call written down before it acts.
  abbrev pub logging : {A : Type 0} → Call Key → Exec S A → Exec (Logged Key S) A
  logging c m l = let (r, s) = m l.backend in (r, record { backend = s; calls = l.calls ++ c ∷ [] })

  unfoldable pub recording : WgOps Key S → WgOps Key (Logged Key S)
  recording ops = record {
    create_interface = logging create ops.create_interface;
    remove_interface = logging remove ops.remove_interface;
    configure_interface = λ c. logging (config c) (ops.configure_interface c);
    configure_peer_routing = λ ps. logging (routing ps) (ops.configure_peer_routing ps);
    sync_split_routes = λ prefixes. logging (split prefixes) (ops.sync_split_routes prefixes);
    apply_firewall = λ own mark. logging (firewall own mark) (ops.apply_firewall own mark);
    clear_firewall = logging clear ops.clear_firewall;
    configure_dns = λ servers domains. logging (dns servers) (ops.configure_dns servers domains);
    reset_dns = logging reset ops.reset_dns;
    read_interface_data = logging read ops.read_interface_data;
  }

-- Calls that are made again, whatever they return, and the backend that they leave.
module _ {Key S : Type 0} (ops : WgOps Key S) where
  abbrev pub perform : Call Key → S → S
  perform create s = (ops.create_interface s).1
  perform remove s = (ops.remove_interface s).1
  perform clear s = (ops.clear_firewall s).1
  perform reset s = (ops.reset_dns s).1
  perform read s = (ops.read_interface_data s).1
  perform (config c) s = (ops.configure_interface c s).1
  perform (routing ps) s = (ops.configure_peer_routing ps s).1
  perform (split prefixes) s = (ops.sync_split_routes prefixes s).1
  perform (firewall own mark) s = (ops.apply_firewall own mark s).1
  perform (dns servers) s = (ops.configure_dns servers [] s).1

  abbrev pub replay : List (Call Key) → S → S
  replay [] s = s
  replay (c ∷ cs) s = replay cs (perform c s)

  pub replay-append :
      (cs ds : List (Call Key)) (s : S) → replay (cs ++ ds) s ≡ replay ds (replay cs s)
  replay-append [] ds s = refl
  replay-append (c ∷ cs) ds s = replay-append cs ds (perform c s)

module _ {Key S : Type 0} (ops : WgOps Key S) where
  -- The run from `l` to `t` made these calls.
  pub record Makes (l t : Logged Key S) (made : List (Call Key)) : Type 0 where
    pub calls_are : t.calls ≡ l.calls ++ made
    pub backend_is : t.backend ≡ replay ops made l.backend

module _ {Key S : Type 0} {ops : WgOps Key S} {l u v : Logged Key S} {xs ys : List (Call Key)} where
  pub chain : Makes ops l u xs → Makes ops u v ys → Makes ops l v (xs ++ ys)
  chain e f = record {
    calls_are = f.calls_are ∙ ap (λ k. k ++ ys) e.calls_are ∙ append_assoc l.calls xs ys;
    backend_is =
        f.backend_is ∙ ap (replay ops ys) e.backend_is ∙ sym (replay-append ops xs ys l.backend);
  }

module _ {Key S : Type 0} {ops : WgOps Key S} {l u v : Logged Key S} {xs : List (Call Key)} where
  pub Makes-to : u ≡ v → Makes ops l u xs → Makes ops l v xs
  Makes-to e = subst (λ k. Makes ops l k xs) e

  pub Makes-from : l ≡ v → Makes ops l u xs → Makes ops v u xs
  Makes-from e = subst (λ k. Makes ops k u xs) e

module _ {Key S : Type 0} (ops : WgOps Key S) {A : Type 0} (c : Call Key) (m : Exec S A)
    (acts : (s : S) → (m s).1 ≡ perform ops c s) (l : Logged Key S) where
  pub logging-eq-ok :
      {r : Result A} {t : Logged Key S} → logging c m l ≡ (r, t) → Makes ops l t (c ∷ [])
  logging-eq-ok h = record {
    calls_are = sym (ap (λ (p : Result A × Logged Key S). p.1.calls) h);
    backend_is = sym (ap (λ (p : Result A × Logged Key S). p.1.backend) h) ∙ acts l.backend;
  }

  pub attempt-logging-eq-ok :
      {r : Result A} {t : Logged Key S}
      → attempt (logging c m) l ≡ (ok r, t)
      → (r ≡ (m l.backend).0) × Makes ops l t (c ∷ [])
  attempt-logging-eq-ok h =
      let e = attempt-eq-ok (logging c m) l h in
      (sym (ap (λ (p : Result A × Logged Key S). p.0) e), logging-eq-ok e)
