-- ===== src/Wireguard/Pruning.antt =====
-- `sync_split_routes_via_ip` and `nft_script` of daemon/src/wireguard.rs: which routes a switch takes
-- away, and what the packet filter is without addresses.
use mathlib.Core.List.{append-nil}
use wirefinder.Prelude.{
  ℕ, Bool, true, false, not, Option, List, [], ◌∷◌, ◌≡◌, refl, Bool-cases, inl, inr,
}
use wirefinder.Prelude.Lists.{All, retain}
use wirefinder.Text.{Text, lit}
use wirefinder.External.{External, IpAddrMask}
use wirefinder.Exec.{Exec}
use wirefinder.Exec.Keeps.{Keeps, Keeps-bind, Keeps-attempt, Keeps-pure}
use wirefinder.Wireguard.Routes.{wants, stale_routes, install, prune, sync_split_routes}
use wirefinder.Wireguard.Firewall.{of_family, retire, family_script, declare}

All-retain : (p : IpAddrMask → Bool) (ps : List IpAddrMask) → All (λ a. p a ≡ true) (retain p ps)
All-retain p [] = tt
All-retain p (a ∷ ps) = elim (Bool-cases (p a)) [
  | inl kept ↦ rw kept (kept, All-retain p ps)
  | inr dropped ↦ rw dropped (All-retain p ps)
]

not-true : (b : Bool) → not b ≡ true → b ≡ false
not-true true h = cc
not-true false h = refl

module _ {S : Type 0} (ip : Text → IpAddrMask → Exec S (Unit {0}))
    (installed : Exec S (List IpAddrMask)) {P : S → Type 0} where
  install-Keeps :
      ((p : IpAddrMask) → Keeps P (ip (lit "replace") p))
      → (ps : List IpAddrMask) → Keeps P (install ip installed ps)
  unfolding install
  install-Keeps k [] = Keeps-pure tt
  install-Keeps k (p ∷ ps) = Keeps-bind (k p) λ _. install-Keeps k ps

  prune-Keeps :
      (wanted : List IpAddrMask)
      → ((p : IpAddrMask) → wants wanted p ≡ false → Keeps P (ip (lit "del") p))
      → (ps : List IpAddrMask) → All (λ p. not (wants wanted p) ≡ true) ps
      → Keeps P (prune ip installed ps)
  unfolding prune
  prune-Keeps wanted k [] h = Keeps-pure tt
  prune-Keeps wanted k (p ∷ ps) h =
      Keeps-bind (Keeps-attempt (k p (not-true (wants wanted p) h.0)))
        λ _. prune-Keeps wanted k ps h.1

  -- Whatever a replacement of any route, a deletion of a route that is not wanted, and a reading of
  -- the installed routes keep, a sync keeps: it deletes no wanted route, on any path through it.
  pub sync_split_routes-Keeps :
      (wanted : List IpAddrMask)
      → ((p : IpAddrMask) → Keeps P (ip (lit "replace") p))
      → ((p : IpAddrMask) → wants wanted p ≡ false → Keeps P (ip (lit "del") p))
      → Keeps P installed
      → Keeps P (sync_split_routes ip installed wanted)
  unfolding sync_split_routes stale_routes
  sync_split_routes-Keeps wanted replaces deletes reads =
      Keeps-bind (install-Keeps replaces wanted) λ _.
        Keeps-bind reads
          λ found. prune-Keeps wanted deletes _ (All-retain (λ p. not (wants wanted p)) found)

retain-none :
    (q : IpAddrMask → Bool) (ps : List IpAddrMask) → All (λ a. q a ≡ false) ps → retain q ps ≡ []
retain-none q [] h = refl
retain-none q (a ∷ ps) h = rw h.0 (retain-none q ps h.1)

-- For a family that none of the addresses is of, the script only retires the table of that family,
-- whatever the mark.
pub family_script_bare :
    (x : External) (ifname : Text) (v6 : Bool) (addresses : List IpAddrMask) (fwmark : Option ℕ)
    → All (λ a. of_family v6 a ≡ false) addresses
    → family_script x ifname v6 addresses fwmark ≡ retire v6
unfolding family_script declare
family_script_bare x ifname v6 addresses fwmark h =
    rw (retain-none (of_family v6) addresses h) (append-nil (retire v6))
