-- ===== src/Wireguard/Table.antt =====
-- `sync_split_routes_via_ip` of daemon/src/wireguard.rs over a table of routes: what is installed after it.
use wirefinder.Prelude.{Bool, true, not, ◌&&◌, ◌||◌, List, [], ◌∷◌, ◌≡◌, refl, arith, ◌↔◌, inl, inr}
use wirefinder.Text.{Text, lit}
use wirefinder.Result.{ok, Result-cases}
use wirefinder.External.{IpAddr, v4, v6, IpAddrMask}
use wirefinder.Exec.{Exec, attempt, pure, ◌>>=◌}
use wirefinder.Wireguard.Routes.{
  ip_equal, mask_equal, wants, stale_routes, install, prune, sync_split_routes,
}

ip_equal_iff : (a b : IpAddr) → (ip_equal a b ≡ true) ↔ (a ≡ b)
unfolding ip_equal
ip_equal_iff (v4 a) (v4 b) = ground arith
ip_equal_iff (v6 a) (v6 b) = ground arith
ip_equal_iff (v4 a) (v6 b) = ground arith
ip_equal_iff (v6 a) (v4 b) = ground arith

pub mask_equal_iff : (p q : IpAddrMask) → (mask_equal p q ≡ true) ↔ (p ≡ q)
unfolding mask_equal
mask_equal_iff p q = ground (arith, ip_equal_iff p.address q.address)

-- Which routes are stale, as a test.
wants-stale_routes :
    (found wanted : List IpAddrMask) (q : IpAddrMask)
    → wants (stale_routes found wanted) q ≡ (not (wants wanted q) && wants found q)
unfolding stale_routes
wants-stale_routes [] wanted q = ground arith
wants-stale_routes (p ∷ found) wanted q =
    ground (arith, wants-stale_routes found wanted q, mask_equal_iff p q)

module _ {S : Type 0} (ip : Text → IpAddrMask → Exec S (Unit {0}))
    (installed : Exec S (List IpAddrMask)) (present : S → IpAddrMask → Bool) where
  -- What `ip route` documents, for the routes of one interface and one protocol that it was given.
  pub record IsTable : Type 0 where
    -- A replacement that succeeds adds its route, and touches no other.
    pub replaced :
        (p : IpAddrMask) (s : S)
        → (ip (lit "replace") p s).0 ≡ ok tt
        → (q : IpAddrMask) → present (ip (lit "replace") p s).1 q ≡ (mask_equal p q || present s q)
    -- A deletion leaves its route absent, and touches no other.
    pub deleted :
        (p : IpAddrMask) (s : S) (q : IpAddrMask)
        → present (ip (lit "del") p s).1 q ≡ (not (mask_equal p q) && present s q)
    -- A reading lists what is there.
    pub reads :
        (s : S)
        → (ps : List IpAddrMask) × (installed s ≡ (ok ps, s))
          × ((q : IpAddrMask) → wants ps q ≡ present s q)

  module _ (table : IsTable) where
    install_present :
        (ps : List IpAddrMask) (s : S)
        → (install ip installed ps s).0 ≡ ok tt
        → (q : IpAddrMask) → present (install ip installed ps s).1 q ≡ (wants ps q || present s q)
    unfolding install ◌>>=◌ pure
    install_present [] s = λ h q. refl
    install_present (p ∷ ps) s = elim (Result-cases (ip (lit "replace") p s).0) [
      | inl (done, e) ↦ rw e λ h q.
          ground (arith, install_present ps (ip (lit "replace") p s).1 h q, table.replaced p s e q)
      | inr (e, bad) ↦ rw bad λ h. absurd (cc h)
    ]

    prune_present :
        (ps : List IpAddrMask) (s : S) (q : IpAddrMask)
        → present (prune ip installed ps s).1 q ≡ (not (wants ps q) && present s q)
    unfolding prune ◌>>=◌ pure attempt
    prune_present [] s q = refl
    prune_present (p ∷ ps) s q =
        ground (arith, prune_present ps (ip (lit "del") p s).1 q, table.deleted p s q)

    -- If a replacement that succeeds adds its route and touches no other, a deletion takes its
    -- route away and touches no other, and a reading lists what is there: after a sync that
    -- returns exactly the wanted routes are installed, whatever was before.
    pub sync_split_routes_present :
        (wanted : List IpAddrMask) (s : S)
        → (sync_split_routes ip installed wanted s).0 ≡ ok tt
        → (q : IpAddrMask) → present (sync_split_routes ip installed wanted s).1 q ≡ wants wanted q
    unfolding sync_split_routes ◌>>=◌
    sync_split_routes_present wanted s = elim (Result-cases (install ip installed wanted s).0) [
      | inl (done, e) ↦
          let t = (install ip installed wanted s).1 in
          let (found, read, all) = table.reads t in
          rw (e, read)
            λ h q. ground (
              arith,
              prune_present (stale_routes found wanted) t q,
              wants-stale_routes found wanted q,
              all q,
              install_present wanted s e q,
            )
      | inr (e, bad) ↦ rw bad λ h. absurd (cc h)
    ]
