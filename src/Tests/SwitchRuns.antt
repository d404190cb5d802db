-- ===== src/Tests/SwitchRuns.antt =====
-- The tests of switches and disconnects of daemon/src/wireguard.rs, by name.
use wirefinder.Prelude.{Bool, true, not, ◌==◌, ◌≡◌, refl, none, some, List, [], ◌∷◌, false}
use wirefinder.Prelude.Lists.{any, is_empty}
use wirefinder.Text.{
  Text, lit, equal, trim, trim_start, trim_end, is_whitespace, split, split_once, parse_unsigned,
  show_ℕ, contains,
}
use wirefinder.Result.{Result, ok, err, traverse, is_ok}
use wirefinder.External.{Host, is_unspecified}
use wirefinder.Exec.{pure, lift, attempt, raise, ◌>>=◌}
use wirefinder.Wireguard.Validate.{
  from_lookup, resolve_endpoint, or_cached, endpoint_addr, parse_address, parse_addresses,
  parse_allowed_ip, parse_dns_entry, parse_dns, parse_named_key, parse_preshared, build_peer,
  peer_endpoint, validate_server, build_interface_config,
}
use wirefinder.Wireguard.Routes.{split_route_prefixes, network_prefix, masked}
use wirefinder.Wireguard.Kernel.{switch, configure, bring_up_with, apply_dns, disconnect}
use wirefinder.Tests.Assert.{all, holds, same_texts, same_number, is_err}
use wirefinder.Tests.Sample.{sample, unasked}
use wirefinder.Tests.ValidationRuns.{valid_server}
use wirefinder.Tests.RecordingWg.{
  WgCall, fresh_wg, live_host, run_switch, switched, asserted, index_of, is_before, is_create,
  is_remove, is_configure, is_routing, is_sync, syncs, is_firewall, firewalls, is_clear, is_dns,
  is_reset, is_read, configures, recording_ops, remove_interface, clear_firewall,
}

abbrev other_key : Text
other_key = lit "XhbwkaURz3Tcc2A7TmV89aB+cHOJayNRiSH2My/r1Bk="

abbrev warm : List (Result (Host Text))
warm = ok (live_host (some 51820) other_key) ∷ []

abbrev cold : List (Result (Host Text))
cold = err (lit "interface down") ∷ []

abbrev is_teardown : List WgCall → Bool
is_teardown (remove_interface ∷ clear_firewall ∷ []) = true
is_teardown _ = false

abbrev warm_switch_never_removes_or_recreates_the_interface : Bool
warm_switch_never_removes_or_recreates_the_interface =
    asserted (λ calls. all (not (any is_remove calls) ∷ not (any is_create calls) ∷ []))
      (run_switch warm valid_server)

abbrev warm_switch_preserves_the_fwmark_read_from_the_device : Bool
warm_switch_preserves_the_fwmark_read_from_the_device =
    asserted
      (λ calls. all (configures (λ cfg. all (same_number cfg.fwmark (some 51820) ∷ [])) calls ∷ []))
      (run_switch warm valid_server)

abbrev warm_switch_reads_then_configures_then_routes : Bool
warm_switch_reads_then_configures_then_routes =
    asserted
      (λ calls. all (
        is_before (index_of is_read calls) (index_of is_configure calls)
        ∷ is_before (index_of is_configure calls) (index_of is_routing calls)
        ∷ []))
      (run_switch warm valid_server)

abbrev warm_switch_sets_exactly_the_servers_address_and_peer : Bool
warm_switch_sets_exactly_the_servers_address_and_peer =
    asserted
      (λ calls. all (
        configures
          (λ cfg. all (
            same_texts cfg.addresses (lit "10.0.0.2/24" ∷ [])
            ∷ same_texts cfg.peer_keys (valid_server.public_key ∷ [])
            ∷ []))
          calls
        ∷ []))
      (run_switch warm valid_server)

abbrev switch_uses_the_tunnels_own_key_port_and_mtu : Bool
switch_uses_the_tunnels_own_key_port_and_mtu =
    asserted
      (λ calls. all (
        configures
          (λ cfg. all (
            equal cfg.prvkey valid_server.private_key
            ∷ (cfg.port == 12345)
            ∷ same_number cfg.mtu (some 1380)
            ∷ []))
          calls
        ∷ []))
      (run_switch warm (record valid_server { listen_port = 12345; mtu = some 1380 }))

abbrev cold_switch_creates_then_configures_then_routes_with_no_fwmark : Bool
cold_switch_creates_then_configures_then_routes_with_no_fwmark =
    asserted
      (λ calls. all (
        not (any is_remove calls)
        ∷ is_before (index_of is_create calls) (index_of is_configure calls)
        ∷ is_before (index_of is_configure calls) (index_of is_routing calls)
        ∷ configures (λ cfg. all (same_number cfg.fwmark none ∷ [])) calls
        ∷ []))
      (run_switch cold valid_server)

abbrev switch_with_dns_configures_the_resolver_after_routing : Bool
switch_with_dns_configures_the_resolver_after_routing =
    asserted
      (λ calls. all (
        is_before (index_of is_routing calls) (index_of is_dns calls)
        ∷ not (any is_reset calls)
        ∷ []))
      (run_switch warm (record valid_server { dns = lit "10.0.0.1" ∷ [] }))

abbrev switch_to_a_server_without_dns_resets_the_resolver : Bool
switch_to_a_server_without_dns_resets_the_resolver =
    asserted (λ calls. all (any is_reset calls ∷ not (any is_dns calls) ∷ []))
      (run_switch warm valid_server)

abbrev switch_returns_the_endpoint_it_configured : Bool
switch_returns_the_endpoint_it_configured =
    holds (λ a. equal (sample.show_socket_addr a) (lit "198.51.100.10:51820"))
      (switched cold valid_server).0

abbrev a_switch_whose_input_is_invalid_touches_no_kernel_ops : Bool
a_switch_whose_input_is_invalid_touches_no_kernel_ops =
    let (r, wg) = switched [] (record valid_server { public_key = lit "not-a-key" }) in
    all (is_err r ∷ is_empty wg.calls ∷ [])

abbrev disconnect_removes_the_interface_then_clears_the_firewall : Bool
disconnect_removes_the_interface_then_clears_the_firewall =
    let (r, wg) = disconnect sample recording_ops (fresh_wg []) in
    all (is_ok r ∷ is_teardown wg.calls ∷ [])

abbrev a_failed_dns_reset_does_not_fail_the_switch : Bool
a_failed_dns_reset_does_not_fail_the_switch =
    let (r, wg) =
      switch sample recording_ops unasked valid_server
        (record (fresh_wg warm) { reset_dns_err = true }) in
    all (is_ok r ∷ any is_reset wg.calls ∷ [])

abbrev switch_to_a_plain_full_tunnel_still_syncs_an_empty_route_set : Bool
switch_to_a_plain_full_tunnel_still_syncs_an_empty_route_set =
    asserted (λ calls. all (any (syncs []) calls ∷ [])) (run_switch warm valid_server)

abbrev switch_applies_the_firewall_after_routing_with_the_devices_fwmark : Bool
switch_applies_the_firewall_after_routing_with_the_devices_fwmark =
    asserted
      (λ calls. all (
        any (firewalls (lit "10.0.0.2/24" ∷ []) (some 51821)) calls
        ∷ is_before (index_of is_sync calls) (index_of is_firewall calls)
        ∷ not (any is_clear calls)
        ∷ []))
      (run_switch (ok (live_host (some 51821) other_key) ∷ []) valid_server)

abbrev switch_applies_the_firewall_even_when_the_fwmark_cannot_be_read : Bool
switch_applies_the_firewall_even_when_the_fwmark_cannot_be_read =
    asserted (λ calls. all (any (firewalls (lit "10.0.0.2/24" ∷ []) none) calls ∷ []))
      (run_switch cold valid_server)

-- Every test passes.
switch_runs_pass :
    all (
      warm_switch_never_removes_or_recreates_the_interface
      ∷ warm_switch_preserves_the_fwmark_read_from_the_device
      ∷ warm_switch_reads_then_configures_then_routes
      ∷ warm_switch_sets_exactly_the_servers_address_and_peer
      ∷ switch_uses_the_tunnels_own_key_port_and_mtu
      ∷ cold_switch_creates_then_configures_then_routes_with_no_fwmark
      ∷ switch_with_dns_configures_the_resolver_after_routing
      ∷ switch_to_a_server_without_dns_resets_the_resolver
      ∷ switch_returns_the_endpoint_it_configured
      ∷ a_switch_whose_input_is_invalid_touches_no_kernel_ops
      ∷ disconnect_removes_the_interface_then_clears_the_firewall
      ∷ a_failed_dns_reset_does_not_fail_the_switch
      ∷ switch_to_a_plain_full_tunnel_still_syncs_an_empty_route_set
      ∷ switch_applies_the_firewall_after_routing_with_the_devices_fwmark
      ∷ switch_applies_the_firewall_even_when_the_fwmark_cannot_be_read ∷ [])
    ≡ true
unfolding lit equal trim trim_start trim_end is_whitespace split split_once parse_unsigned show_ℕ
    contains from_lookup resolve_endpoint or_cached endpoint_addr parse_address parse_addresses
    parse_allowed_ip parse_dns_entry parse_dns parse_named_key parse_preshared build_peer
    peer_endpoint validate_server traverse pure lift attempt raise ◌>>=◌ switch configure
    bring_up_with apply_dns build_interface_config split_route_prefixes network_prefix masked
    recording_ops disconnect is_unspecified
switch_runs_pass = refl
