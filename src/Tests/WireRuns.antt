-- ===== src/Tests/WireRuns.antt =====
-- The tests of proto/src/lib.rs that look at JSON text, by name, at the format of Tests/Json.
use wirefinder.Prelude.{
  Bool, true, false, not, ◌&&◌, ◌≡◌, refl, Option, none, some, List, [], ◌∷◌, and_then, is_some,
}
use wirefinder.Prelude.Lists.{is_empty}
use wirefinder.Text.{Text, lit, equal, show_ℕ, is_whitespace, contains, starts_with}
use wirefinder.Proto.{ServerSpec, Request, Response, ServerInfo, ServerDetail, alive}
use wirefinder.Tests.Json.{
  print, print_items, print_fields, quoted, back, finished, begins, step, tokens, read_value,
  read_items, read_fields, read,
}
use wirefinder.Tests.Json.Format.{in_object, request_value, value_request, value_spec}
use wirefinder.Tests.Json.Format.Replies.{detail_value, response_value, value_response}
use wirefinder.Tests.Assert.{all}

abbrev serializes : Request → Text → Bool
serializes req expected = equal (print (request_value req)) expected

abbrev requests_serialize_to_expected_json : Bool
requests_serialize_to_expected_json = all (
    serializes (Request.switch_server (lit "nexus")) (lit "{\"SwitchServer\":{\"name\":\"nexus\"}}")
    ∷ serializes (Request.remove_server (lit "decoy"))
        (lit "{\"RemoveServer\":{\"name\":\"decoy\"}}")
    ∷ serializes (Request.import_server (lit "home") (lit "[Interface]"))
        (lit "{\"ImportServer\":{\"name\":\"home\",\"conf\":\"[Interface]\"}}")
    ∷ serializes (Request.get_server (lit "nexus")) (lit "{\"GetServer\":{\"name\":\"nexus\"}}")
    ∷ serializes (Request.list_servers none) (lit "{\"ListServers\":{\"query\":null}}")
    ∷ serializes (Request.list_servers (some (lit "nyc")))
        (lit "{\"ListServers\":{\"query\":\"nyc\"}}")
    ∷ [])

abbrev parsed_spec : Text → Option ServerSpec
parsed_spec t = and_then (read t) (in_object value_spec)

abbrev of_spec : (ServerSpec → Bool) → Option ServerSpec → Bool
of_spec p none = false
of_spec p (some s) = p s

abbrev is_first : Text → List Text → Bool
is_first t (u ∷ []) = equal u t
is_first t ts = false

abbrev server_spec_optional_fields_default : Bool
server_spec_optional_fields_default =
    of_spec
      (λ spec. all (
        is_first (lit "10.0.0.2/24") spec.addresses
        ∷ not (is_some spec.private_key)
        ∷ not (is_some spec.listen_port)
        ∷ not (is_some spec.mtu)
        ∷ not (is_some spec.keepalive)
        ∷ is_empty spec.dns
        ∷ []))
      (parsed_spec (
        lit
          "{\n  \"name\": \"edge\",\n  \"public_key\": \"abc\",\n  \"endpoint\": \"vpn.example.com:51820\",\n  \"addresses\": [\"10.0.0.2/24\"],\n  \"allowed_ips\": [\"0.0.0.0/0\"]\n}"))

abbrev server_spec_requires_addresses : Bool
server_spec_requires_addresses = not (
    is_some (
      parsed_spec (
        lit
          "{\n  \"name\": \"edge\",\n  \"public_key\": \"abc\",\n  \"endpoint\": \"vpn.example.com:51820\",\n  \"allowed_ips\": [\"0.0.0.0/0\"]\n}")))

abbrev edge : ServerSpec
edge = record {
  name = lit "edge";
  private_key = none;
  public_key = lit "abc";
  endpoint = lit "vpn.example.com:51820";
  addresses = lit "10.0.0.2/24" ∷ [];
  allowed_ips = lit "0.0.0.0/0" ∷ [];
  listen_port = none;
  mtu = none;
  keepalive = some 25;
  preshared_key = none;
  dns = [];
}

-- A request that is read back is compared by what it serializes to.
abbrev same_request : Text → Option Request → Bool
same_request wire none = false
same_request wire (some req) = serializes req wire

abbrev request_round_trips : Request → Bool
request_round_trips req =
    let wire = print (request_value req) in same_request wire (and_then (read wire) value_request)

abbrev add_server_round_trips : Bool
add_server_round_trips = request_round_trips (Request.add_server edge)

abbrev edit_server_round_trips : Bool
edit_server_round_trips = request_round_trips (Request.edit_server edge)

abbrev edge_detail : ServerDetail
edge_detail = record {
  name = lit "edge";
  public_key = lit "abc";
  endpoint = lit "vpn.example.com:51820";
  addresses = lit "10.0.0.2/24" ∷ [];
  allowed_ips = lit "0.0.0.0/0" ∷ [];
  listen_port = none;
  mtu = none;
  keepalive = some 25;
  has_preshared_key = true;
  dns = [];
}

abbrev server_detail_has_no_secret_field_names : Bool
server_detail_has_no_secret_field_names =
    let json = print (detail_value edge_detail) in
    not (contains json (lit "private_key"))
    && (not (contains json (lit "\"preshared_key\"")) && contains json (lit "has_preshared_key"))

abbrev same_response : Text → Option Response → Bool
same_response wire none = false
same_response wire (some response) = equal (print (response_value response)) wire

abbrev response_round_trips : Response → Bool
response_round_trips response =
    let wire = print (response_value response) in
    same_response wire (and_then (read wire) value_response)

abbrev nexus : ServerInfo
nexus = record {
  name = lit "nexus";
  endpoint = lit "vpn.example.com:51820";
  addresses = lit "10.0.0.2/24" ∷ [];
  public_key = lit "pubkey";
  active = true;
  state = some alive;
}

abbrev responses_round_trip : Bool
responses_round_trip = all (
    response_round_trips Response.disconnected
    ∷ response_round_trips (Response.servers (nexus ∷ []))
    ∷ response_round_trips (Response.switched (lit "nexus"))
    ∷ response_round_trips (
        Response.server_detail (record edge_detail {
          name = lit "nexus";
          public_key = lit "peerkey";
          has_preshared_key = false;
        }))
    ∷ response_round_trips (Response.error (lit "boom"))
    ∷ [])

-- Every test passes.
wire_runs_pass :
    all (
      requests_serialize_to_expected_json ∷ server_spec_optional_fields_default
      ∷ server_spec_requires_addresses ∷ add_server_round_trips ∷ edit_server_round_trips
      ∷ server_detail_has_no_secret_field_names ∷ responses_round_trip ∷ [])
    ≡ true
unfolding lit equal show_ℕ is_whitespace contains starts_with print print_items print_fields quoted
    back finished begins step tokens read_value read_items read_fields read
wire_runs_pass = refl
