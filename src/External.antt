-- ===== src/External.antt =====
-- What the program calls and does not implement: the types and functions of the crate
-- defguard_wireguard_rs that it names (keys, address masks), the socket addresses and Unicode
-- tables of the standard library, and the resolver. Each is a field; the laws that the code relies on are
-- hypotheses of the theorems that need them.
use wirefinder.Prelude.{ℕ, Bool, ◌==◌, Option, List}
use wirefinder.Text.{Text}
use wirefinder.Result.{Result}

-- `std::net::IpAddr`, an address as the number of its 32 or 128 bits.
pub data IpAddr : Type 0 where
  v4 : ℕ → IpAddr
  v6 : ℕ → IpAddr

unfoldable pub is_unspecified : IpAddr → Bool
is_unspecified (v4 a) = a == 0
is_unspecified (v6 a) = a == 0

unfoldable pub is_ipv6 : IpAddr → Bool
is_ipv6 (v4 a) = Bool.false
is_ipv6 (v6 a) = Bool.true

-- `defguard_wireguard_rs::net::IpAddrMask`, by the two fields that the source reads.
pub record IpAddrMask : Type 0 where
  pub address : IpAddr
  pub cidr : ℕ

-- `std::net::SocketAddr`
pub record SocketAddr : Type 0 where
  pub ip : IpAddr
  pub port : ℕ

-- What one lookup on the throwaway thread comes to: the addresses, an error, or no answer in
-- RESOLVE_TIMEOUT.
pub data Lookup : Type 0 where
  answered : List SocketAddr → Lookup
  failed : Text → Lookup
  timed_out : Lookup

-- `ToSocketAddrs` on a host and port, at one moment
abbrev pub Resolver : Type 0
Resolver = Text → Lookup

-- `SystemTime`, in nanoseconds from `UNIX_EPOCH`: the kernel reports no earlier handshake.
abbrev pub SystemTime : Type 0
SystemTime = ℕ

-- `defguard_wireguard_rs::peer::Peer`, by the fields that the source reads or sets.
pub record Peer (Key : Type 0) : Type 0 where
  pub public_key : Key
  pub endpoint : Option SocketAddr
  pub allowed_ips : List IpAddrMask
  pub persistent_keepalive_interval : Option ℕ
  pub preshared_key : Option Key
  pub last_handshake : Option SystemTime
  pub rx_bytes : ℕ
  pub tx_bytes : ℕ

-- `defguard_wireguard_rs::InterfaceConfiguration`
pub record InterfaceConfiguration (Key : Type 0) : Type 0 where
  pub name : Text
  pub prvkey : Text
  pub addresses : List IpAddrMask
  pub port : ℕ
  pub peers : List (Peer Key)
  pub mtu : Option ℕ
  pub fwmark : Option ℕ

-- `defguard_wireguard_rs::host::Host`; its map of peers as the list of its values.
pub record Host (Key : Type 0) : Type 0 where
  pub listen_port : ℕ
  pub private_key : Option Key
  pub fwmark : Option ℕ
  pub peers : List (Peer Key)

pub record External : Type 1 where
  pub Key : Type 0
  pub parse_key : Text → Result Key
  pub show_key : Key → Text
  pub public_key : Key → Key
  pub new_peer : Key → Peer Key
  pub parse_mask : Text → Result IpAddrMask
  pub show_mask : IpAddrMask → Text
  pub mask : IpAddrMask → IpAddr
  pub parse_ip : Text → Result IpAddr
  pub show_ip : IpAddr → Text
  pub parse_socket_addr : Text → Result SocketAddr
  pub show_socket_addr : SocketAddr → Text
  pub to_lowercase : Text → Text
