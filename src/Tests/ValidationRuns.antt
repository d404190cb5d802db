-- ===== src/Tests/ValidationRuns.antt =====
-- The validation tests of daemon/src/wireguard.rs, by name.
use wirefinder.Prelude.{Bool, true, ◌≡◌, refl, none, some, [], ◌∷◌}
use wirefinder.Text.{
  lit, equal, trim, trim_start, trim_end, is_whitespace, split, split_once, parse_unsigned, show_ℕ,
  contains,
}
use wirefinder.Result.{err, traverse, is_ok}
use wirefinder.Config.{ServerConfig}
use wirefinder.Wireguard.Validate.{
  from_lookup, resolve_endpoint, or_cached, endpoint_addr, parse_address, parse_addresses,
  parse_allowed_ip, parse_dns_entry, parse_dns, parse_named_key, parse_preshared, build_peer,
  peer_endpoint, validate_server,
}
use wirefinder.Tests.Assert.{all, holds, fails_on, same_error}
use wirefinder.Tests.Sample.{sample, generated_key, peer_key, unasked}

abbrev pub valid_server : ServerConfig
valid_server = record {
  name = lit "edge";
  private_key = generated_key;
  public_key = peer_key;
  endpoint = lit "198.51.100.10:51820";
  resolved_endpoint = none;
  addresses = lit "10.0.0.2/24" ∷ [];
  allowed_ips = lit "0.0.0.0/0" ∷ [];
  listen_port = 51820;
  mtu = none;
  keepalive = some 25;
  preshared_key = none;
  dns = [];
}

abbrev valid_server_passes_validation : Bool
valid_server_passes_validation = is_ok (validate_server sample unasked valid_server)

abbrev bad_public_key_is_rejected : Bool
bad_public_key_is_rejected =
    fails_on
      (validate_server sample unasked (record valid_server { public_key = lit "not-base64!!" }))
      (lit "public_key")

abbrev bad_server_address_is_rejected : Bool
bad_server_address_is_rejected =
    fails_on
      (validate_server sample unasked (record valid_server { addresses = lit "not-a-cidr" ∷ [] }))
      (lit "address")

abbrev empty_addresses_are_rejected : Bool
empty_addresses_are_rejected =
    fails_on (validate_server sample unasked (record valid_server { addresses = [] }))
      (lit "at least one address")

abbrev bad_private_key_is_rejected : Bool
bad_private_key_is_rejected =
    fails_on (validate_server sample unasked (record valid_server { private_key = lit "garbage" }))
      (lit "private_key")

abbrev bad_allowed_ip_is_rejected : Bool
bad_allowed_ip_is_rejected =
    fails_on
      (validate_server sample unasked (record valid_server { allowed_ips = lit "not-a-cidr" ∷ [] }))
      (lit "allowed_ip")

abbrev bad_dns_is_rejected : Bool
bad_dns_is_rejected =
    fails_on
      (validate_server sample unasked (record valid_server { dns = lit "999.999.999.999" ∷ [] }))
      (lit "dns")

abbrev bad_preshared_key_is_rejected : Bool
bad_preshared_key_is_rejected =
    fails_on
      (validate_server sample unasked (record valid_server { preshared_key = some (lit "nope") }))
      (lit "preshared_key")

abbrev validate_returns_the_resolved_endpoint_for_caching : Bool
validate_returns_the_resolved_endpoint_for_caching =
    holds (λ a. equal (sample.show_socket_addr a) (lit "198.51.100.10:51820"))
      (validate_server sample unasked valid_server)

abbrev a_failed_resolution_falls_back_to_the_cached_address : Bool
a_failed_resolution_falls_back_to_the_cached_address =
    holds (λ a. equal (sample.show_socket_addr a) (lit "198.51.100.10:51820"))
      (or_cached sample (err (lit "temporary failure in name resolution"))
        (some (lit "198.51.100.10:51820")))

abbrev a_failed_resolution_with_no_usable_cache_keeps_the_original_error : Bool
a_failed_resolution_with_no_usable_cache_keeps_the_original_error =
    let e = lit "temporary failure in name resolution" in
    all (
      same_error (or_cached sample (err e) none) e
      ∷ same_error (or_cached sample (err e) (some (lit "not-an-addr"))) e
      ∷ [])

abbrev a_fresh_resolution_wins_over_the_cache : Bool
a_fresh_resolution_wins_over_the_cache =
    holds (λ a. equal (sample.show_socket_addr a) (lit "203.0.113.7:51820"))
      (or_cached sample (sample.parse_socket_addr (lit "203.0.113.7:51820"))
        (some (lit "198.51.100.10:51820")))

-- Every test passes.
validation_runs_pass :
    all (
      valid_server_passes_validation ∷ bad_public_key_is_rejected ∷ bad_server_address_is_rejected
      ∷ empty_addresses_are_rejected ∷ bad_private_key_is_rejected ∷ bad_allowed_ip_is_rejected
      ∷ bad_dns_is_rejected ∷ bad_preshared_key_is_rejected
      ∷ validate_returns_the_resolved_endpoint_for_caching
      ∷ a_failed_resolution_falls_back_to_the_cached_address
      ∷ a_failed_resolution_with_no_usable_cache_keeps_the_original_error
      ∷ a_fresh_resolution_wins_over_the_cache ∷ [])
    ≡ true
unfolding lit equal trim trim_start trim_end is_whitespace split split_once parse_unsigned show_ℕ
    contains from_lookup resolve_endpoint or_cached endpoint_addr parse_address parse_addresses
    parse_allowed_ip parse_dns_entry parse_dns parse_named_key parse_preshared build_peer
    peer_endpoint validate_server traverse
validation_runs_pass = refl
