-- ===== src/Tests/Json/Format.antt =====
-- The messages and the state file as JSON, for the tests that look at it: a struct is an object with
-- its fields in order, an enum is tagged by its variant, and a field that is not there is a default
-- where the source allows it. Fields of other names are ignored.
pub mod Replies
use wirefinder.Prelude.{
  ℕ, ◌^◌, Bool, true, false, ltb, Option, none, some, List, [], ◌∷◌, and_then, map_some, map,
  unwrap_or, if◌then◌else◌,
}
use wirefinder.Text.{Text, lit, equal}
use wirefinder.Result.{Result, ok, err, ok_or}
use wirefinder.Proto.{
  ServerSpec, Request, Response, ConnState, alive, connecting, stale, never, PeerStatus, ServerInfo,
  ServerDetail, InterfaceStatus,
}
use wirefinder.Config.{ServerConfig, Config}
use wirefinder.Config.Store.{Codec}
use wirefinder.Server.{Json}
use wirefinder.Tests.Json.{
  Value, null, bool, num, str, arr, obj, Items, nil, cons, Fields, end, field, print, read,
}

abbrev pub object : List (Text × Value) → Fields
object [] = end
object ((k, v) ∷ rest) = field k v (object rest)

abbrev items : List Value → Items
items [] = nil
items (v ∷ vs) = cons v (items vs)

abbrev pub tagged : Text → Value → Value
tagged tag v = obj (field tag v end)

abbrev pub texts : List Text → Value
texts ts = arr (items (map str ts))

abbrev pub opt {ℓ} : {A : Type ℓ} → (A → Value) → Option A → Value
opt f none = null
opt f (some a) = f a

abbrev lookup : Text → Fields → Option Value
lookup k end = none
lookup k (field j v fs) = if equal j k then some v else lookup k fs

abbrev pub as_text : Value → Option Text
as_text (str t) = some t
as_text _ = none

abbrev pub as_number : ℕ → Value → Option ℕ
as_number limit (num n) = if ltb n limit then some n else none
as_number limit _ = none

abbrev pub as_bool : Value → Option Bool
as_bool (bool b) = some b
as_bool _ = none

abbrev all_of {ℓ} : {A : Type ℓ} → (Value → Option A) → Items → Option (List A)
all_of f nil = some []
all_of f (cons v vs) = and_then (f v) (λ a. map_some (λ rest. a ∷ rest) (all_of f vs))

abbrev pub as_list {ℓ} : {A : Type ℓ} → (Value → Option A) → Value → Option (List A)
as_list f (arr vs) = all_of f vs
as_list f _ = none

abbrev pub as_option {ℓ} : {A : Type ℓ} → (Value → Option A) → Value → Option (Option A)
as_option f null = some none
as_option f v = map_some (λ a. some a) (f v)

-- A field that must be there, and one with a default.
abbrev pub required {ℓ} : {A : Type ℓ} → Text → (Value → Option A) → Fields → Option A
required k f fs = and_then (lookup k fs) f

abbrev pub defaulted {ℓ} : {A : Type ℓ} → A → Text → (Value → Option A) → Fields → Option A
defaulted d k f fs = elim (lookup k fs) [ none ↦ some d | some v ↦ f v ]

infixl 5 ◌>>=◌
abbrev pub ◌>>=◌ {ℓ κ} : {A : Type ℓ} {B : Type κ} → Option A → (A → Option B) → Option B
o >>= f = and_then o f

abbrev pub u16 : Value → Option ℕ
u16 = as_number (2 ^ 16)

abbrev pub u32 : Value → Option ℕ
u32 = as_number (2 ^ 32)

abbrev pub u64 : Value → Option ℕ
u64 = as_number (2 ^ 64)

abbrev pub in_object {ℓ} : {A : Type ℓ} → (Fields → Option A) → Value → Option A
in_object f (obj fs) = f fs
in_object f _ = none

abbrev pub spec_value : ServerSpec → Value
spec_value s = obj (
    object (
      (lit "name", str s.name)
      ∷ (lit "private_key", opt str s.private_key)
      ∷ (lit "public_key", str s.public_key)
      ∷ (lit "endpoint", str s.endpoint)
      ∷ (lit "addresses", texts s.addresses)
      ∷ (lit "allowed_ips", texts s.allowed_ips)
      ∷ (lit "listen_port", opt num s.listen_port)
      ∷ (lit "mtu", opt num s.mtu)
      ∷ (lit "keepalive", opt num s.keepalive)
      ∷ (lit "preshared_key", opt str s.preshared_key)
      ∷ (lit "dns", texts s.dns)
      ∷ []))

abbrev pub value_spec : Fields → Option ServerSpec
value_spec fs = do
  name ← required (lit "name") as_text fs
  private_key ← defaulted none (lit "private_key") (as_option as_text) fs
  public_key ← required (lit "public_key") as_text fs
  endpoint ← required (lit "endpoint") as_text fs
  addresses ← required (lit "addresses") (as_list as_text) fs
  allowed_ips ← required (lit "allowed_ips") (as_list as_text) fs
  listen_port ← defaulted none (lit "listen_port") (as_option u16) fs
  mtu ← defaulted none (lit "mtu") (as_option u32) fs
  keepalive ← defaulted none (lit "keepalive") (as_option u16) fs
  preshared_key ← defaulted none (lit "preshared_key") (as_option as_text) fs
  dns ← defaulted [] (lit "dns") (as_list as_text) fs
  some (record {
    name = name;
    private_key = private_key;
    public_key = public_key;
    endpoint = endpoint;
    addresses = addresses;
    allowed_ips = allowed_ips;
    listen_port = listen_port;
    mtu = mtu;
    keepalive = keepalive;
    preshared_key = preshared_key;
    dns = dns;
  })

abbrev pub request_value : Request → Value
request_value Request.status = str (lit "Status")
request_value (Request.list_servers query) =
    tagged (lit "ListServers") (tagged (lit "query") (opt str query))
request_value (Request.get_server name) = tagged (lit "GetServer") (tagged (lit "name") (str name))
request_value (Request.add_server s) =
    tagged (lit "AddServer") (tagged (lit "server") (spec_value s))
request_value (Request.edit_server s) =
    tagged (lit "EditServer") (tagged (lit "server") (spec_value s))
request_value (Request.import_server name conf) =
    tagged (lit "ImportServer")
      (obj (object ((lit "name", str name) ∷ (lit "conf", str conf) ∷ [])))
request_value (Request.remove_server name) =
    tagged (lit "RemoveServer") (tagged (lit "name") (str name))
request_value (Request.switch_server name) =
    tagged (lit "SwitchServer") (tagged (lit "name") (str name))
request_value Request.disconnect = str (lit "Disconnect")

abbrev named_request : Text → Fields → Option Request
named_request tag fs =
    if equal tag (lit "ListServers")
    then map_some Request.list_servers (defaulted none (lit "query") (as_option as_text) fs)
    else if equal tag (lit "GetServer")
    then map_some Request.get_server (required (lit "name") as_text fs)
    else if equal tag (lit "AddServer")
    then map_some Request.add_server (required (lit "server") (in_object value_spec) fs)
    else if equal tag (lit "EditServer")
    then map_some Request.edit_server (required (lit "server") (in_object value_spec) fs)
    else if equal tag (lit "ImportServer")
    then (do
      name ← required (lit "name") as_text fs
      conf ← required (lit "conf") as_text fs
      some (Request.import_server name conf))
    else if equal tag (lit "RemoveServer")
    then map_some Request.remove_server (required (lit "name") as_text fs)
    else if equal tag (lit "SwitchServer")
    then map_some Request.switch_server (required (lit "name") as_text fs)
    else none

abbrev pub value_request : Value → Option Request
value_request (str t) =
    if equal t (lit "Status")
    then some Request.status
    else if equal t (lit "Disconnect")
    then some Request.disconnect
    else none
value_request (obj (field tag (obj fs) end)) = named_request tag fs
value_request _ = none
