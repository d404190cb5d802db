-- ===== src/Wireguard/Routes.antt =====
-- The split routes of daemon/src/wireguard.rs: which prefixes want a route of their own, and how
-- the routes of the interface are brought in step with them.
use Prim.Native.Nat.{bit_and}
use wirefinder.Prelude.{
  Bool, true, false, not, ◌&&◌, ◌==◌, Option, none, some, List, [], ◌∷◌, ◌++◌, map, and_then,
  unwrap_or,
}
use wirefinder.Prelude.Lists.{any, retain}
use wirefinder.Text.{Text, lit, trim}
use wirefinder.Result.{Result, ok, err, map_err, to_option}
use wirefinder.External.{External, IpAddr, v4, v6, IpAddrMask, is_unspecified, Peer}
use wirefinder.Exec.{Exec, pure, lift, attempt, ◌>>=◌, ◌>>◌}
use wirefinder.Wireguard.Commands.{Child, Runner, expect_success}

unfoldable pub ip_equal : IpAddr → IpAddr → Bool
ip_equal (v4 a) (v4 b) = a == b
ip_equal (v6 a) (v6 b) = a == b
ip_equal _ _ = false

unfoldable pub mask_equal : IpAddrMask → IpAddrMask → Bool
unfolding ip_equal
mask_equal p q = ip_equal p.address q.address && p.cidr == q.cidr

abbrev pub default_route : IpAddrMask → Bool
default_route ip = is_unspecified ip.address

unfoldable pub masked : IpAddr → IpAddr → IpAddr
masked (v4 a) (v4 m) = v4 (bit_and a m)
masked (v6 a) (v6 m) = v6 (bit_and a m)
masked a _ = a

module _ (x : External) where
  unfoldable pub network_prefix : IpAddrMask → IpAddrMask
  unfolding masked
  network_prefix prefix = record {
    address = masked prefix.address (x.mask prefix);
    cidr = prefix.cidr;
  }

  unfoldable pub split_route_prefixes : Peer x.Key → List IpAddrMask
  split_route_prefixes peer =
      map network_prefix (retain (λ ip. not (default_route ip)) peer.allowed_ips)

-- `wanted.contains(p)`
abbrev pub wants : List IpAddrMask → IpAddrMask → Bool
wants wanted p = any (λ q. mask_equal q p) wanted

unfoldable pub stale_routes : List IpAddrMask → List IpAddrMask → List IpAddrMask
unfolding mask_equal
stale_routes installed wanted = retain (λ p. not (wants wanted p)) installed

abbrev pub route_proto : Text
route_proto = lit "static"

module _ (x : External) (entries : Text → Option (List (Option Text))) where
  unfoldable pub keep_entry : Option Text → List IpAddrMask → List IpAddrMask
  keep_entry dst rest = elim (and_then dst (λ d. to_option (x.parse_mask (trim d)))) [
    | none ↦ rest
    | some p ↦ p ∷ rest
  ]

  unfoldable pub keep_entries : List (Option Text) → List IpAddrMask
  unfolding keep_entry
  keep_entries [] = []
  keep_entries (dst ∷ ds) = keep_entry dst (keep_entries ds)

  -- `entries` reads the JSON array as the `dst` of each of its objects.
  unfoldable pub parse_ip_route_prefixes : Text → List IpAddrMask
  unfolding keep_entries
  parse_ip_route_prefixes json = keep_entries (unwrap_or (entries json) [])

  module _ {S : Type 0} (run : Runner S) (ifname : Text) where
    ip_args : Text → Text → List Text
    ip_args action dest =
        lit "route"
        ∷ action
        ∷ dest
        ∷ lit "dev"
        ∷ ifname
        ∷ lit "table"
        ∷ lit "main"
        ∷ lit "proto"
        ∷ route_proto
        ∷ []

    unfoldable pub ip_route : Text → IpAddrMask → Exec S (Unit {0})
    unfolding ip_args
    ip_route action prefix = do
      let dest = x.show_mask prefix
      let what = lit "ip route " ++ (action ++ (lit " " ++ dest))
      ran ← attempt (run (lit "ip") (ip_args action dest) [])
      child ← lift (map_err (λ e. what ++ (lit ": " ++ e)) ran)
      status ← lift (map_err (λ e. what ++ (lit ": " ++ e)) child.waited)
      lift (expect_success (what ++ (lit " dev " ++ ifname)) status)

    -- The output of a run that succeeded, else nothing.
    stdout_of : Result Child → Text
    stdout_of (err _) = []
    stdout_of (ok child) = elim child.waited [
      | err _ ↦ []
      | ok status ↦ elim status.success [ true ↦ child.stdout | false ↦ [] ]
    ]

    show_routes : Text → Exec S (List IpAddrMask)
    unfolding stdout_of
    show_routes family = do
      out ← attempt (
          run (lit "ip")
            (family
              ∷ lit "-j"
              ∷ lit "route"
              ∷ lit "show"
              ∷ lit "table"
              ∷ lit "main"
              ∷ lit "dev"
              ∷ ifname
              ∷ lit "proto"
              ∷ route_proto
              ∷ [])
            [])
      pure (parse_ip_route_prefixes (stdout_of out))

    unfoldable pub installed_split_routes : Exec S (List IpAddrMask)
    unfolding show_routes
    installed_split_routes = do
      four ← show_routes (lit "-4")
      six ← show_routes (lit "-6")
      pure (four ++ six)

-- `sync_split_routes_via_ip`, over what it calls.
module _ {S : Type 0} (ip : Text → IpAddrMask → Exec S (Unit {0}))
    (installed : Exec S (List IpAddrMask)) where
  unfoldable pub install : List IpAddrMask → Exec S (Unit {0})
  install [] = pure tt
  install (p ∷ ps) = do ip (lit "replace") p; install ps

  -- An error of `ip` is only logged.
  unfoldable pub prune : List IpAddrMask → Exec S (Unit {0})
  prune [] = pure tt
  prune (p ∷ ps) = do attempt (ip (lit "del") p); prune ps

  unfoldable pub sync_split_routes : List IpAddrMask → Exec S (Unit {0})
  sync_split_routes prefixes = do
    install prefixes
    found ← installed
    prune (stale_routes found prefixes)
