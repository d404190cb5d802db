-- ===== src/Tests/RouteRuns.antt =====
-- The tests of daemon/src/wireguard.rs for split routes and for IPv6 literals, by name.
use wirefinder.Prelude.{
  Bool, true, ◌==◌, ◌≡◌, refl, none, some, List, [], ◌∷◌, Option, map, ◌&&◌, and_then,
}
use wirefinder.Prelude.Lists.{any, is_empty, length}
use wirefinder.Text.{
  Text, lit, equal, trim, trim_start, trim_end, is_whitespace, split, split_once, parse_unsigned,
  show_ℕ, contains, starts_with, join,
}
use wirefinder.Result.{Result, ok, traverse}
use wirefinder.External.{Host, is_unspecified, IpAddrMask, is_ipv6}
use wirefinder.Exec.{pure, lift, attempt, raise, ◌>>=◌}
use wirefinder.Wireguard.Validate.{
  from_lookup, resolve_endpoint, or_cached, endpoint_addr, parse_address, parse_addresses,
  parse_allowed_ip, parse_dns_entry, parse_dns, parse_named_key, parse_preshared, build_peer,
  peer_endpoint, validate_server, build_interface_config,
}
use wirefinder.Wireguard.Routes.{
  split_route_prefixes, network_prefix, masked, stale_routes, mask_equal, ip_equal,
  parse_ip_route_prefixes, keep_entries, keep_entry,
}
use wirefinder.Wireguard.Kernel.{switch, configure, bring_up_with, apply_dns, disconnect}
use wirefinder.Tests.Assert.{all, holds, same_texts}
use wirefinder.Tests.Sample.{sample, unasked}
use wirefinder.Tests.ValidationRuns.{valid_server}
use wirefinder.Tests.RecordingWg.{
  live_host, run_switch, asserted, index_of, is_before, is_routing, is_sync, syncs, configures,
  recording_ops,
}
use wirefinder.Wireguard.Firewall.{
  nft_script, family_script, declare, guard_rule, guard_rules, mark_chains, connmark,
}
use wirefinder.Tests.Json.{
  back, read, finished, begins, step, tokens, read_value, read_items, read_fields,
}
use wirefinder.Tests.Json.Format.{as_text, as_list, as_option, defaulted, in_object}

abbrev warm : List (Result (Host Text))
warm = ok (live_host (some 51820) (lit "XhbwkaURz3Tcc2A7TmV89aB+cHOJayNRiSH2My/r1Bk=")) ∷ []

abbrev masks : List Text → Result (List IpAddrMask)
masks ts = traverse sample.parse_mask ts

abbrev shown : List IpAddrMask → List Text
shown prefixes = map sample.show_mask prefixes

-- The prefixes of the peer of a server with these allowed addresses
abbrev prefixes_are : List Text → List Text → Bool
prefixes_are allowed expected =
    holds (λ peer. same_texts (shown (split_route_prefixes sample peer)) expected)
      (build_peer sample unasked (record valid_server { allowed_ips = allowed }))

abbrev of_both :
    (List IpAddrMask → List IpAddrMask → Bool)
    → Result (List IpAddrMask)
    → Result (List IpAddrMask)
    → Bool
of_both p a b = holds (λ xs. holds (λ ys. p xs ys) b) a

-- `dst` of each object of the array
abbrev entries : Text → Option (List (Option Text))
entries t = and_then (read t) (as_list (in_object (defaulted none (lit "dst") (as_option as_text))))

abbrev split_route_prefixes_keeps_only_the_non_default_prefixes : Bool
split_route_prefixes_keeps_only_the_non_default_prefixes =
    prefixes_are (lit "192.168.1.0/24" ∷ lit "0.0.0.0/0" ∷ lit "::/0" ∷ lit "fd00:beef::/48" ∷ [])
      (lit "192.168.1.0/24" ∷ lit "fd00:beef::/48" ∷ [])

abbrev switch_routes_a_peers_lan_prefix_explicitly : Bool
switch_routes_a_peers_lan_prefix_explicitly =
    asserted
      (λ calls.
        any (syncs (lit "192.168.1.0/24" ∷ [])) calls
        && is_before (index_of is_routing calls) (index_of is_sync calls))
      (run_switch warm (record valid_server {
        allowed_ips = lit "192.168.1.0/24" ∷ lit "0.0.0.0/0" ∷ lit "::/0" ∷ [];
      }))

abbrev split_route_prefixes_are_canonical_network_addresses : Bool
split_route_prefixes_are_canonical_network_addresses =
    prefixes_are
      (lit "192.168.1.5/24" ∷ lit "10.1.2.3/8" ∷ lit "fd00:beef::1/48" ∷ lit "0.0.0.0/0" ∷ [])
      (lit "192.168.1.0/24" ∷ lit "10.0.0.0/8" ∷ lit "fd00:beef::/48" ∷ [])
    && holds (λ host. equal (sample.show_mask (network_prefix sample host)) (lit "10.5.5.5/32"))
        (sample.parse_mask (lit "10.5.5.5/32"))

abbrev ip_route_json_yields_the_prefixes_it_lists : Bool
ip_route_json_yields_the_prefixes_it_lists =
    same_texts
      (shown (
        parse_ip_route_prefixes sample entries (
          lit
            "[{\"dst\":\"192.168.1.0/24\",\"protocol\":\"static\",\"scope\":\"link\",\"flags\":[]},\n                       {\"dst\":\"10.5.5.5\",\"protocol\":\"static\",\"scope\":\"link\",\"flags\":[]},\n                       {\"dst\":\"default\",\"protocol\":\"static\",\"flags\":[]}]")))
      (lit "192.168.1.0/24" ∷ lit "10.5.5.5/32" ∷ [])

abbrev unparseable_ip_output_yields_no_prefixes : Bool
unparseable_ip_output_yields_no_prefixes = all (
    map (λ junk. is_empty (parse_ip_route_prefixes sample entries junk))
      ([] ∷ lit "Cannot find device \"wirefinder\"" ∷ lit "[]" ∷ lit "not json" ∷ []))

abbrev stale_routes_are_the_ones_the_new_server_does_not_want : Bool
stale_routes_are_the_ones_the_new_server_does_not_want =
    of_both
      (λ installed wanted. all (
        same_texts (shown (stale_routes installed wanted))
          (lit "10.8.0.0/16" ∷ lit "fd00::/48" ∷ [])
        ∷ is_empty (stale_routes [] wanted)
        ∷ (length (stale_routes installed []) == 3)
        ∷ []))
      (masks (lit "192.168.1.0/24" ∷ lit "10.8.0.0/16" ∷ lit "fd00::/48" ∷ []))
      (masks (lit "192.168.1.0/24" ∷ lit "172.16.0.0/12" ∷ []))

abbrev nft_script_uses_the_right_family_keyword_for_each_address : Bool
nft_script_uses_the_right_family_keyword_for_each_address =
    holds
      (λ addrs.
        let script = nft_script sample (lit "wirefinder") addrs (some 51820) in
        all (
          contains script (lit "table ip wirefinder {")
          ∷ contains script (lit "table ip6 wirefinder {")
          ∷ contains script (lit "ip daddr 10.0.0.4 ")
          ∷ contains script (lit "ip6 daddr fd00::2 ")
          ∷ []))
      (masks (lit "10.0.0.4/24" ∷ lit "fd00::2/128" ∷ []))

abbrev an_ip_literal_endpoint_never_touches_the_resolver : Bool
an_ip_literal_endpoint_never_touches_the_resolver =
    holds (λ addr. equal (sample.show_socket_addr addr) (lit "[2001:db8::1]:51820"))
      (resolve_endpoint sample unasked
        (record valid_server { endpoint = lit "[2001:db8::1]:51820" }))

abbrev switch_threads_all_addresses_for_a_dual_stack_tunnel : Bool
switch_threads_all_addresses_for_a_dual_stack_tunnel =
    asserted
      (configures (λ cfg. same_texts cfg.addresses (lit "10.0.0.2/32" ∷ lit "fd00::2/128" ∷ [])))
      (run_switch warm
        (record valid_server { addresses = lit "10.0.0.2/32" ∷ lit "fd00::2/128" ∷ [] }))

-- Every test passes.
route_runs_pass :
    all (
      split_route_prefixes_keeps_only_the_non_default_prefixes
      ∷ switch_routes_a_peers_lan_prefix_explicitly
      ∷ split_route_prefixes_are_canonical_network_addresses
      ∷ ip_route_json_yields_the_prefixes_it_lists ∷ unparseable_ip_output_yields_no_prefixes
      ∷ stale_routes_are_the_ones_the_new_server_does_not_want
      ∷ nft_script_uses_the_right_family_keyword_for_each_address
      ∷ an_ip_literal_endpoint_never_touches_the_resolver
      ∷ switch_threads_all_addresses_for_a_dual_stack_tunnel ∷ [])
    ≡ true
unfolding back lit equal trim trim_start trim_end is_whitespace split split_once parse_unsigned
    show_ℕ contains from_lookup resolve_endpoint or_cached endpoint_addr parse_address
    parse_addresses parse_allowed_ip parse_dns_entry parse_dns parse_named_key parse_preshared
    build_peer peer_endpoint validate_server traverse pure lift attempt raise ◌>>=◌ switch configure
    bring_up_with apply_dns build_interface_config split_route_prefixes network_prefix masked
    recording_ops disconnect is_unspecified nft_script family_script declare guard_rule guard_rules
    mark_chains connmark is_ipv6 starts_with join stale_routes mask_equal ip_equal
    parse_ip_route_prefixes keep_entries keep_entry read finished begins step tokens read_value
    read_items read_fields
route_runs_pass = refl
