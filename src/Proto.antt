-- ===== src/Proto.antt =====
-- proto/src/lib.rs: the requests and responses of the control socket, and the list filter.
-- Ports, sizes and times are plain numbers; the ranges of their Rust types (u16, u32, u64) are
-- stated where a value is read from text.
use wirefinder.Prelude.{ℕ, Bool, true, ◌||◌, Option, List, if◌then◌else◌}
use wirefinder.Prelude.Lists.{is_empty, any}
use wirefinder.Text.{Text, trim, contains}

pub record ServerSpec : Type 0 where
  pub name : Text
  pub private_key : Option Text
  pub public_key : Text
  pub endpoint : Text
  pub addresses : List Text
  pub allowed_ips : List Text
  pub listen_port : Option ℕ
  pub mtu : Option ℕ
  pub keepalive : Option ℕ
  pub preshared_key : Option Text
  pub dns : List Text

pub data Request : Type 0 where
  status : Request
  list_servers : Option Text → Request
  get_server : Text → Request
  add_server : ServerSpec → Request
  edit_server : ServerSpec → Request
  import_server : Text → Text → Request
  remove_server : Text → Request
  switch_server : Text → Request
  disconnect : Request

pub data ConnState : Type 0 where
  alive connecting stale never : ConnState

pub record ServerInfo : Type 0 where
  pub name : Text
  pub endpoint : Text
  pub addresses : List Text
  pub public_key : Text
  pub active : Bool
  pub state : Option ConnState

pub record ServerDetail : Type 0 where
  pub name : Text
  pub public_key : Text
  pub endpoint : Text
  pub addresses : List Text
  pub allowed_ips : List Text
  pub listen_port : Option ℕ
  pub mtu : Option ℕ
  pub keepalive : Option ℕ
  pub has_preshared_key : Bool
  pub dns : List Text

pub record PeerStatus : Type 0 where
  pub public_key : Text
  pub endpoint : Option Text
  pub allowed_ips : List Text
  pub state : ConnState
  pub handshake_age_secs : Option ℕ
  pub rx_bytes : ℕ
  pub tx_bytes : ℕ

pub record InterfaceStatus : Type 0 where
  pub name : Text
  pub listen_port : ℕ
  pub peers : List PeerStatus

pub data Response : Type 0 where
  status : InterfaceStatus → Response
  disconnected : Response
  servers : List ServerInfo → Response
  server_detail : ServerDetail → Response
  switched : Text → Response
  error : Text → Response

-- `ServerInfo::matches`; the Unicode tables behind `str::to_lowercase` are the parameter.
module _ (to_lowercase : Text → Text) where
  unfoldable pub matches : ServerInfo → Text → Bool
  matches info query =
      let q = to_lowercase (trim query) in
      if is_empty q
      then true
      else contains (to_lowercase info.name) q
        || contains (to_lowercase info.endpoint) q
        || any (λ a. contains (to_lowercase a) q) info.addresses
