-- ===== src/WgConf.antt =====
-- daemon/src/wgconf.rs: the parser of wg-quick files.
pub mod Good
pub mod Print
pub mod Entry
pub mod Csv
pub mod Reads
pub mod InterfaceLines
pub mod PeerLines
pub mod RoundTrip
pub mod Comments
pub mod Sound
use wirefinder.Prelude.{
  ltb, ℕ, ◌+◌, ◌^◌, Option, none, some, List, [], ◌∷◌, ◌++◌, map, if◌then◌else◌, and_then, is_some,
  not, unwrap_or,
}
use wirefinder.Prelude.Lists.{length, is_empty, retain}
use wirefinder.Text.{
  Text, lit, equal, trim, before, split, split_once, strip_prefix, strip_suffix, lines,
  to_ascii_lowercase, eq_ignore_ascii_case, show_ℕ, parse_unsigned,
}
use wirefinder.Result.{Result, ok, err, ◌>>=◌, ok_or}

pub record ParsedConfig : Type 0 where
  pub private_key : Text
  pub addresses : List Text
  pub dns : List Text
  pub listen_port : Option ℕ
  pub mtu : Option ℕ
  pub public_key : Text
  pub endpoint : Text
  pub allowed_ips : List Text
  pub preshared_key : Option Text
  pub keepalive : Option ℕ

pub data Section : Type 0 where
  interface peer : Section

pub record Iface : Type 0 where
  pub private_key : Option Text
  pub addresses : List Text
  pub dns : List Text
  pub listen_port : Option ℕ
  pub mtu : Option ℕ

pub record PeerAcc : Type 0 where
  pub public_key : Option Text
  pub endpoint : Option Text
  pub allowed_ips : List Text
  pub preshared_key : Option Text
  pub keepalive : Option ℕ

abbrev pub iface_default : Iface
iface_default = record {
  private_key = none;
  addresses = [];
  dns = [];
  listen_port = none;
  mtu = none;
}

abbrev pub peer_default : PeerAcc
peer_default = record {
  public_key = none;
  endpoint = none;
  allowed_ips = [];
  preshared_key = none;
  keepalive = none;
}

unfoldable pub csv : Text → List Text
csv value = retain (λ s. not (is_empty s)) (map trim (split b',' value))

-- `format!("line {line}: …")`
abbrev pub at_line : ℕ → Text → Text
at_line line what = lit "line " ++ (show_ℕ line ++ (lit ": " ++ what))

unfoldable pub set_scalar : Option Text → Text → Text → ℕ → Result (Option Text)
set_scalar none key value line = ok (some value)
set_scalar (some _) key value line = err (at_line line (lit "duplicate '" ++ (key ++ lit "'")))

abbrev pub or_bad_number : Text → Text → ℕ → Option ℕ → Result (Option ℕ)
or_bad_number key value line (some n) = ok (some n)
or_bad_number key value line none =
    err (at_line line (lit "'" ++ (key ++ (lit "' must be a number, got '" ++ (value ++ lit "'")))))

-- The range is that of the type at which `parse_num` is called.
unfoldable pub parse_num : ℕ → Text → Text → ℕ → Result (Option ℕ)
parse_num limit key value line = or_bad_number key value line (parse_unsigned limit value)

abbrev pub u16 : ℕ
u16 = 2 ^ 16

abbrev pub u32 : ℕ
u32 = 2 ^ 32

-- The variables that the loop of `parse` carries.
pub record Acc : Type 0 where
  pub iface : Option Iface
  pub peers : List PeerAcc
  pub section : Option Section

abbrev pub start : Acc
start = record { iface = none; peers = []; section = none }

-- The comment and the white space of a line fall away.
unfoldable pub content : Text → Text
content raw = trim (before b'#' (unwrap_or (strip_suffix 0xd raw) raw))

-- A section header's inner text, if the line is one.
unfoldable pub header : Text → Option Text
header line = and_then (strip_prefix b'[' line) (strip_suffix b']')

unfoldable pub start_section : Acc → Text → Result Acc
start_section acc inner =
    if eq_ignore_ascii_case inner (lit "interface")
    then (if is_some acc.iface
        then err (lit "multiple [Interface] sections")
        else ok (record acc { iface = some iface_default; section = some interface }))
    else if eq_ignore_ascii_case inner (lit "peer")
    then ok (record acc { peers = acc.peers ++ peer_default ∷ []; section = some peer })
    else err (lit "unknown section '[" ++ (inner ++ lit "]'"))

-- The arms of the `match` on an [Interface] key, by the key in lower case.
unfoldable pub set_iface : Iface → Text → Text → ℕ → Result Iface
set_iface i key value line =
    let key_lc = to_ascii_lowercase key in
    if equal key_lc (lit "privatekey")
    then (do v ← set_scalar i.private_key key value line; ok (record i { private_key = v }))
    else if equal key_lc (lit "address")
    then ok (record i { addresses = i.addresses ++ csv value })
    else if equal key_lc (lit "dns")
    then ok (record i { dns = i.dns ++ csv value })
    else if equal key_lc (lit "listenport")
    then (do n ← parse_num u16 key value line; ok (record i { listen_port = n }))
    else if equal key_lc (lit "mtu")
    then (do n ← parse_num u32 key value line; ok (record i { mtu = n }))
    else ok i

unfoldable pub set_peer : PeerAcc → Text → Text → ℕ → Result PeerAcc
set_peer p key value line =
    let key_lc = to_ascii_lowercase key in
    if equal key_lc (lit "publickey")
    then (do v ← set_scalar p.public_key key value line; ok (record p { public_key = v }))
    else if equal key_lc (lit "endpoint")
    then (do v ← set_scalar p.endpoint key value line; ok (record p { endpoint = v }))
    else if equal key_lc (lit "allowedips")
    then ok (record p { allowed_ips = p.allowed_ips ++ csv value })
    else if equal key_lc (lit "presharedkey")
    then (do v ← set_scalar p.preshared_key key value line; ok (record p { preshared_key = v }))
    else if equal key_lc (lit "persistentkeepalive")
    then (do n ← parse_num u16 key value line; ok (record p { keepalive = n }))
    else ok p

-- `peers.last_mut()`, where the empty list is the panic of its `expect`.
unfoldable pub update_last : (PeerAcc → Result PeerAcc) → List PeerAcc → Result (List PeerAcc)
update_last f [] = err (lit "panic: peer section started")
update_last f (p ∷ []) = do q ← f p; ok (q ∷ [])
update_last f (p ∷ q ∷ ps) = do rest ← update_last f (q ∷ ps); ok (p ∷ rest)

-- `iface.as_mut().expect(…)` and the arms below it
unfoldable pub update_iface : (Iface → Result Iface) → Option Iface → Result (Option Iface)
update_iface f none = err (lit "panic: interface section started")
update_iface f (some i) = do j ← f i; ok (some j)

unfoldable pub assign : Option Section → Acc → Text → Text → ℕ → Result Acc
assign none acc key value line =
    err (at_line line (lit "'" ++ (key ++ lit "' appears before any section")))
assign (some interface) acc key value line = do
  i ← update_iface (λ i. set_iface i key value line) acc.iface
  ok (record acc { iface = i })
assign (some peer) acc key value line = do
  ps ← update_last (λ p. set_peer p key value line) acc.peers
  ok (record acc { peers = ps })

unfoldable pub key_value : Acc → ℕ → Text → Option (Text × Text) → Result Acc
key_value acc line text none =
    err (at_line line (lit "expected 'key = value', got '" ++ (text ++ lit "'")))
key_value acc line text (some (key, value)) = assign acc.section acc (trim key) (trim value) line

unfoldable pub read_content : Acc → ℕ → Text → Option Text → Result Acc
read_content acc line text (some inner) = start_section acc (trim inner)
read_content acc line text none = key_value acc line text (split_once b'=' text)

-- One round of the loop.
unfoldable pub read_line : Acc → ℕ → Text → Result Acc
read_line acc line raw =
    let text = content raw in
    if is_empty text then ok acc else read_content acc line text (header text)

unfoldable pub read_lines : Acc → ℕ → List Text → Result Acc
read_lines acc line [] = ok acc
read_lines acc line (raw ∷ rest) = do acc' ← read_line acc line raw; read_lines acc' (line + 1) rest

-- `peers.is_empty()`, `peers.len() > 1`, then the one peer
-- `next()`, where the empty list is the panic of its `expect`.
abbrev pub next_peer : List PeerAcc → Result PeerAcc
next_peer [] = err (lit "panic: exactly one peer")
next_peer (p ∷ ps) = ok p

unfoldable pub the_peer : List PeerAcc → Result PeerAcc
the_peer peers =
    if is_empty peers
    then err (lit "missing [Peer] section")
    else if ltb 1 (length peers)
    then err (lit "wirefinder supports one peer per config, found " ++ show_ℕ (length peers))
    else next_peer peers

unfoldable pub finish : Acc → Result ParsedConfig
finish acc = do
  iface ← ok_or acc.iface (lit "missing [Interface] section")
  p ← the_peer acc.peers
  private_key ← ok_or iface.private_key (lit "[Interface]: missing PrivateKey")
  addresses ←
      if is_empty iface.addresses
      then err (lit "[Interface]: missing Address")
      else ok iface.addresses
  public_key ← ok_or p.public_key (lit "[Peer]: missing PublicKey")
  endpoint ← ok_or p.endpoint (lit "[Peer]: missing Endpoint")
  ok (record {
    private_key = private_key;
    addresses = addresses;
    dns = iface.dns;
    listen_port = iface.listen_port;
    mtu = iface.mtu;
    public_key = public_key;
    endpoint = endpoint;
    allowed_ips = if is_empty p.allowed_ips then lit "0.0.0.0/0" ∷ [] else p.allowed_ips;
    preshared_key = p.preshared_key;
    keepalive = p.keepalive;
  })

unfoldable pub parse : Text → Result ParsedConfig
parse text = do acc ← read_lines start 1 (lines text); finish acc
