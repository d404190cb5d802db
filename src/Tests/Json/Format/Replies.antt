-- ===== src/Tests/Json/Format/Replies.antt =====
-- The responses and the state file as JSON.
use wirefinder.Prelude.{Option, none, some, [], ◌∷◌, and_then, map_some, map, if◌then◌else◌}
use wirefinder.Text.{Text, lit, equal}
use wirefinder.Result.{ok, ok_or}
use wirefinder.Proto.{
  Response, ConnState, alive, connecting, stale, never, PeerStatus, ServerInfo, ServerDetail,
  InterfaceStatus,
}
use wirefinder.Config.{ServerConfig, Config}
use wirefinder.Config.Store.{Codec}
use wirefinder.Server.{Json}
use wirefinder.Tests.Json.{Value, bool, num, str, arr, obj, Fields, end, field, print, read}
use wirefinder.Tests.Json.Format.{
  object, items, tagged, texts, opt, as_text, as_bool, as_list, as_option, required, defaulted, u16,
  u32, u64, in_object, ◌>>=◌, request_value, value_request,
}

abbrev state_value : ConnState → Value
state_value alive = str (lit "Alive")
state_value connecting = str (lit "Connecting")
state_value stale = str (lit "Stale")
state_value never = str (lit "Never")

abbrev as_state : Value → Option ConnState
as_state (str t) =
    if equal t (lit "Alive")
    then some alive
    else if equal t (lit "Connecting")
    then some connecting
    else if equal t (lit "Stale")
    then some stale
    else if equal t (lit "Never")
    then some never
    else none
as_state _ = none

abbrev info_value : ServerInfo → Value
info_value s = obj (
    object (
      (lit "name", str s.name)
      ∷ (lit "endpoint", str s.endpoint)
      ∷ (lit "addresses", texts s.addresses)
      ∷ (lit "public_key", str s.public_key)
      ∷ (lit "active", bool s.active)
      ∷ (lit "state", opt state_value s.state)
      ∷ []))

abbrev value_info : Fields → Option ServerInfo
value_info fs = do
  name ← required (lit "name") as_text fs
  endpoint ← required (lit "endpoint") as_text fs
  addresses ← required (lit "addresses") (as_list as_text) fs
  public_key ← required (lit "public_key") as_text fs
  active ← required (lit "active") as_bool fs
  state ← defaulted none (lit "state") (as_option as_state) fs
  some (record {
    name = name;
    endpoint = endpoint;
    addresses = addresses;
    public_key = public_key;
    active = active;
    state = state;
  })

abbrev pub detail_value : ServerDetail → Value
detail_value d = obj (
    object (
      (lit "name", str d.name)
      ∷ (lit "public_key", str d.public_key)
      ∷ (lit "endpoint", str d.endpoint)
      ∷ (lit "addresses", texts d.addresses)
      ∷ (lit "allowed_ips", texts d.allowed_ips)
      ∷ (lit "listen_port", opt num d.listen_port)
      ∷ (lit "mtu", opt num d.mtu)
      ∷ (lit "keepalive", opt num d.keepalive)
      ∷ (lit "has_preshared_key", bool d.has_preshared_key)
      ∷ (lit "dns", texts d.dns)
      ∷ []))

abbrev value_detail : Fields → Option ServerDetail
value_detail fs = do
  name ← required (lit "name") as_text fs
  public_key ← required (lit "public_key") as_text fs
  endpoint ← required (lit "endpoint") as_text fs
  addresses ← required (lit "addresses") (as_list as_text) fs
  allowed_ips ← required (lit "allowed_ips") (as_list as_text) fs
  listen_port ← defaulted none (lit "listen_port") (as_option u16) fs
  mtu ← defaulted none (lit "mtu") (as_option u32) fs
  keepalive ← defaulted none (lit "keepalive") (as_option u16) fs
  has_preshared_key ← required (lit "has_preshared_key") as_bool fs
  dns ← defaulted [] (lit "dns") (as_list as_text) fs
  some (record {
    name = name;
    public_key = public_key;
    endpoint = endpoint;
    addresses = addresses;
    allowed_ips = allowed_ips;
    listen_port = listen_port;
    mtu = mtu;
    keepalive = keepalive;
    has_preshared_key = has_preshared_key;
    dns = dns;
  })

abbrev peer_value : PeerStatus → Value
peer_value p = obj (
    object (
      (lit "public_key", str p.public_key)
      ∷ (lit "endpoint", opt str p.endpoint)
      ∷ (lit "allowed_ips", texts p.allowed_ips)
      ∷ (lit "state", state_value p.state)
      ∷ (lit "handshake_age_secs", opt num p.handshake_age_secs)
      ∷ (lit "rx_bytes", num p.rx_bytes)
      ∷ (lit "tx_bytes", num p.tx_bytes)
      ∷ []))

abbrev value_peer : Fields → Option PeerStatus
value_peer fs = do
  public_key ← required (lit "public_key") as_text fs
  endpoint ← defaulted none (lit "endpoint") (as_option as_text) fs
  allowed_ips ← required (lit "allowed_ips") (as_list as_text) fs
  state ← required (lit "state") as_state fs
  age ← defaulted none (lit "handshake_age_secs") (as_option u64) fs
  rx ← required (lit "rx_bytes") u64 fs
  tx ← required (lit "tx_bytes") u64 fs
  some (record {
    public_key = public_key;
    endpoint = endpoint;
    allowed_ips = allowed_ips;
    state = state;
    handshake_age_secs = age;
    rx_bytes = rx;
    tx_bytes = tx;
  })

abbrev status_value : InterfaceStatus → Value
status_value s = obj (
    object (
      (lit "name", str s.name)
      ∷ (lit "listen_port", num s.listen_port)
      ∷ (lit "peers", arr (items (map peer_value s.peers)))
      ∷ []))

abbrev value_status : Fields → Option InterfaceStatus
value_status fs = do
  name ← required (lit "name") as_text fs
  port ← required (lit "listen_port") u16 fs
  peers ← required (lit "peers") (as_list (in_object value_peer)) fs
  some (record { name = name; listen_port = port; peers = peers })

abbrev pub response_value : Response → Value
response_value (Response.status s) = tagged (lit "Status") (status_value s)
response_value Response.disconnected = str (lit "Disconnected")
response_value (Response.servers ss) = tagged (lit "Servers") (arr (items (map info_value ss)))
response_value (Response.server_detail d) = tagged (lit "ServerDetail") (detail_value d)
response_value (Response.switched name) = tagged (lit "Switched") (tagged (lit "name") (str name))
response_value (Response.error e) = tagged (lit "Error") (str e)

abbrev named_response : Text → Value → Option Response
named_response tag v =
    if equal tag (lit "Status")
    then map_some Response.status (in_object value_status v)
    else if equal tag (lit "Servers")
    then map_some Response.servers (as_list (in_object value_info) v)
    else if equal tag (lit "ServerDetail")
    then map_some Response.server_detail (in_object value_detail v)
    else if equal tag (lit "Switched")
    then map_some Response.switched (in_object (required (lit "name") as_text) v)
    else if equal tag (lit "Error")
    then map_some Response.error (as_text v)
    else none

abbrev pub value_response : Value → Option Response
value_response (str t) = if equal t (lit "Disconnected") then some Response.disconnected else none
value_response (obj (field tag v end)) = named_response tag v
value_response _ = none

abbrev pub json : Json
json = record {
  encode_request = λ r. ok (print (request_value r));
  decode_request = λ t. ok_or (and_then (read t) value_request) (lit "invalid request");
  encode_response = λ r. ok (print (response_value r));
  decode_response = λ t. ok_or (and_then (read t) value_response) (lit "invalid response");
}

abbrev server_value : ServerConfig → Value
server_value s = obj (
    object (
      (lit "name", str s.name)
      ∷ (lit "private_key", str s.private_key)
      ∷ (lit "public_key", str s.public_key)
      ∷ (lit "endpoint", str s.endpoint)
      ∷ (lit "resolved_endpoint", opt str s.resolved_endpoint)
      ∷ (lit "addresses", texts s.addresses)
      ∷ (lit "allowed_ips", texts s.allowed_ips)
      ∷ (lit "listen_port", num s.listen_port)
      ∷ (lit "mtu", opt num s.mtu)
      ∷ (lit "keepalive", opt num s.keepalive)
      ∷ (lit "preshared_key", opt str s.preshared_key)
      ∷ (lit "dns", texts s.dns)
      ∷ []))

abbrev value_server : Fields → Option ServerConfig
value_server fs = do
  name ← required (lit "name") as_text fs
  private_key ← required (lit "private_key") as_text fs
  public_key ← required (lit "public_key") as_text fs
  endpoint ← required (lit "endpoint") as_text fs
  resolved ← defaulted none (lit "resolved_endpoint") (as_option as_text) fs
  addresses ← required (lit "addresses") (as_list as_text) fs
  allowed_ips ← required (lit "allowed_ips") (as_list as_text) fs
  listen_port ← required (lit "listen_port") u16 fs
  mtu ← defaulted none (lit "mtu") (as_option u32) fs
  keepalive ← defaulted none (lit "keepalive") (as_option u16) fs
  preshared_key ← defaulted none (lit "preshared_key") (as_option as_text) fs
  dns ← defaulted [] (lit "dns") (as_list as_text) fs
  some (record {
    name = name;
    private_key = private_key;
    public_key = public_key;
    endpoint = endpoint;
    resolved_endpoint = resolved;
    addresses = addresses;
    allowed_ips = allowed_ips;
    listen_port = listen_port;
    mtu = mtu;
    keepalive = keepalive;
    preshared_key = preshared_key;
    dns = dns;
  })

abbrev value_config : Fields → Option Config
value_config fs = do
  servers ← defaulted [] (lit "servers") (as_list (in_object value_server)) fs
  some (record { servers = servers })

-- The file is written without the white space of the pretty printer.
abbrev pub json_codec : Codec
json_codec = record {
  encode = λ c. ok (print (tagged (lit "servers") (arr (items (map server_value c.servers)))));
  decode = λ t. ok_or (and_then (read t) (in_object value_config)) (lit "invalid state");
}
