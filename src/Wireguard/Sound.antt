-- ===== src/Wireguard/Sound.antt =====
-- What validation establishes of a server, whatever the resolver says later.
use wirefinder.Prelude.{Option, ◌≡◌, true, arith}
use wirefinder.Text.{Text, lit}
use wirefinder.Result.{ok, is_ok, traverse}
use wirefinder.External.{External, SocketAddr, Resolver}
use wirefinder.Config.{ServerConfig}
use wirefinder.Wireguard.Validate.{
  endpoint_addr, parse_addresses, parse_allowed_ip, parse_dns, parse_address, parse_dns_entry,
  parse_named_key, parse_preshared, build_peer, peer_endpoint, validate_server,
}

module _ (x : External) where
  -- Every part of the server that is read as text parses.
  pub record IsSound (s : ServerConfig) : Type 0 where
    pub private_ok : is_ok (parse_named_key x s (lit "private_key") s.private_key) ≡ true
    pub public_ok : is_ok (parse_named_key x s (lit "public_key") s.public_key) ≡ true
    pub allowed_ok : is_ok (traverse (parse_allowed_ip x s) s.allowed_ips) ≡ true
    pub preshared_ok : is_ok (parse_preshared x s s.preshared_key) ≡ true
    pub dns_ok : is_ok (parse_dns x s) ≡ true
    pub addresses_ok : is_ok (parse_addresses x s) ≡ true

  -- Of a server that validates every key, address, allowed IP and resolver parses, and the address
  -- that validation gives is that of its endpoint.
  pub validate_server-IsSound :
      (resolve : Resolver) (s : ServerConfig) {addr : SocketAddr}
      → validate_server x resolve s ≡ ok addr
      → IsSound s × (endpoint_addr x resolve s ≡ ok addr)
  unfolding validate_server build_peer peer_endpoint
  validate_server-IsSound resolve s h = ground arith

  -- If every key, address, allowed IP and resolver of a server parses, its validation is the
  -- resolution of its endpoint.
  pub validate_server-eq-endpoint :
      (resolve : Resolver) (s : ServerConfig)
      → IsSound s
      → validate_server x resolve s ≡ endpoint_addr x resolve s
  unfolding validate_server build_peer peer_endpoint
  validate_server-eq-endpoint resolve s h = ground arith

  -- Soundness does not speak of the cached endpoint.
  pub IsSound-resolved_endpoint :
      (s : ServerConfig) (cached : Option Text)
      → IsSound s
      → IsSound (record s { resolved_endpoint = cached })
  unfolding parse_named_key parse_allowed_ip parse_preshared parse_dns parse_dns_entry
      parse_addresses parse_address
  IsSound-resolved_endpoint s cached h = record {
    private_ok = h.private_ok;
    public_ok = h.public_ok;
    allowed_ok = h.allowed_ok;
    preshared_ok = h.preshared_ok;
    dns_ok = h.dns_ok;
    addresses_ok = h.addresses_ok;
  }
