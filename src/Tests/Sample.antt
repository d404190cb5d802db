-- ===== src/Tests/Sample.antt =====
-- The parameters at which the repository's tests run: addresses as they are written, and keys by their
-- length, which is all that these tests ask of a key.
use wirefinder.Prelude.{
  ℕ, ◌+◌, ◌-◌, ◌*◌, ◌/◌, ◌%◌, ◌^◌, ◌==◌, Option, none, some, List, [], ◌∷◌, ◌++◌, if◌then◌else◌,
  and_then, map_some, suc,
}
use wirefinder.Prelude.Lists.{length}
use wirefinder.Text.{Text, lit, split, split_once, parse_unsigned, show_ℕ, to_ascii_lowercase}
use wirefinder.Result.{Result, ok, err, ok_or, ◌>>=◌}
use wirefinder.Tests.Ipv6.{parse_v6, show_v6}
use wirefinder.External.{External, IpAddr, v4, v6, IpAddrMask, SocketAddr, Resolver, failed}

abbrev byte : Text → Option ℕ
byte t = parse_unsigned 256 t

abbrev dotted : List Text → Option ℕ
dotted (a ∷ b ∷ c ∷ d ∷ []) = and_then (byte a) (λ a. and_then (byte b) (λ b.
    and_then (byte c) (λ c. and_then (byte d) (λ d. some (((a * 256 + b) * 256 + c) * 256 + d)))))
dotted _ = none

abbrev sample_ip : Text → Result IpAddr
sample_ip t = elim (dotted (split b'.' t)) [
  | some n ↦ ok (v4 n)
  | none ↦ do n ← ok_or (parse_v6 t) (lit "invalid IP address syntax"); ok (v6 n)
]

abbrev width : IpAddr → ℕ
width (v4 n) = 32
width (v6 n) = 128

abbrev ones : ℕ → ℕ → ℕ
ones bits size = 2 ^ bits - 2 ^ (bits - size)

abbrev mask_of : IpAddrMask → IpAddr → IpAddr
mask_of m (v4 n) = v4 (ones 32 m.cidr)
mask_of m (v6 n) = v6 (ones 128 m.cidr)

abbrev prefix_of : Text → Option (Text × Text) → Result IpAddrMask
prefix_of t none = do ip ← sample_ip t; ok (record { address = ip; cidr = width ip })
prefix_of t (some (host, size)) = do
  ip ← sample_ip host
  n ← ok_or (parse_unsigned (suc (width ip)) size) (lit "invalid prefix length")
  ok (record { address = ip; cidr = n })

abbrev socket_at : Option ℕ → Option IpAddr → Result SocketAddr
socket_at (some port) (some ip) = ok (record { ip = ip; port = port })
socket_at _ _ = err (lit "invalid socket address syntax")

abbrev port_of : Text → Option ℕ
port_of t = parse_unsigned (2 ^ 16) t

-- What follows the `]` of an IPv6 address
abbrev after_bracket : Text → Option ℕ
after_bracket [] = none
after_bracket (c ∷ port) = if c == b':' then port_of port else none

abbrev socket_v4 : Option (Text × Text) → Result SocketAddr
socket_v4 none = socket_at none none
socket_v4 (some (host, port)) = socket_at (port_of port) (map_some v4 (dotted (split b'.' host)))

abbrev socket_v6 : Option (Text × Text) → Result SocketAddr
socket_v6 none = socket_at none none
socket_v6 (some (host, rest)) = socket_at (after_bracket rest) (map_some v6 (parse_v6 host))

abbrev sample_socket : Text → Result SocketAddr
sample_socket [] = socket_at none none
sample_socket (c ∷ t) =
    if c == b'[' then socket_v6 (split_once b']' t) else socket_v4 (split_once b':' (c ∷ t))

abbrev shown_ip : IpAddr → Text
shown_ip (v4 n) =
    show_ℕ (n / 2 ^ 24)
    ++ (b'.' ∷ show_ℕ (n / 2 ^ 16 % 256))
    ++ (b'.' ∷ show_ℕ (n / 256 % 256))
    ++ (b'.' ∷ show_ℕ (n % 256))
shown_ip (v6 n) = show_v6 n

abbrev shown_host : IpAddr → Text
shown_host (v4 n) = shown_ip (v4 n)
shown_host (v6 n) = b'[' ∷ (show_v6 n ++ lit "]")

abbrev sample_key : Text → Result Text
sample_key t = if length t == 44 then ok t else err (lit "invalid key")

abbrev derived : Text → Text
derived [] = []
derived (c ∷ cs) = b'+' ∷ cs

abbrev pub sample : External
sample = record {
  Key = Text;
  parse_key = sample_key;
  show_key = λ k. k;
  public_key = derived;
  new_peer = λ k. record {
    public_key = k;
    endpoint = none;
    allowed_ips = [];
    persistent_keepalive_interval = none;
    preshared_key = none;
    last_handshake = none;
    rx_bytes = 0;
    tx_bytes = 0;
  };
  parse_mask = λ t. prefix_of t (split_once b'/' t);
  show_mask = λ m. shown_ip m.address ++ (b'/' ∷ show_ℕ m.cidr);
  mask = λ m. mask_of m m.address;
  parse_ip = sample_ip;
  show_ip = shown_ip;
  parse_socket_addr = sample_socket;
  show_socket_addr = λ a. shown_host a.ip ++ (b':' ∷ show_ℕ a.port);
  to_lowercase = to_ascii_lowercase;
}

abbrev pub generated_key : Text
generated_key = lit "4Jk8eE7y0W1fM4QbC9VdT2uXw6rZaPsLhGnKoYiR5Uk="

abbrev pub peer_key : Text
peer_key = lit "HIgo9xNzJMWLKASShiTqIybxZ0U3wGLiUeJ1PKf8ykw="

-- Endpoints are literal: the resolver is never asked.
abbrev pub unasked : Resolver
unasked host = failed (lit "temporary failure in name resolution")
