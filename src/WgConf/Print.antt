-- ===== src/WgConf/Print.antt =====
-- The canonical wg-quick file of a configuration that daemon/src/wgconf.rs parses: the format that
-- its comments describe, written out.
use wirefinder.Prelude.{true, false, Option, none, some, List, [], ◌∷◌, ◌++◌, ◌≡◌, map_some}
use wirefinder.Prelude.Lists.{All, is_empty}
use wirefinder.Text.{Text, lit, join, show_ℕ}
use wirefinder.Text.Lines.{has, unlines}
use wirefinder.Text.Numbers.{below}
use wirefinder.Text.Trimming.{IsTrimmed}
use wirefinder.WgConf.{ParsedConfig, u16, u32}

abbrev pub entry : Text → Text → Text
entry key value = key ++ (0x20 ∷ b'=' ∷ 0x20 ∷ value)

abbrev pub entry_if : Text → Option Text → List Text
entry_if key none = []
entry_if key (some value) = entry key value ∷ []

abbrev pub listed : List Text → Option Text
listed [] = none
listed (v ∷ vs) = some (join (lit ", ") (v ∷ vs))

unfoldable pub interface_lines : ParsedConfig → List Text
interface_lines p =
    lit "[Interface]"
    ∷ entry (lit "PrivateKey") p.private_key
    ∷ entry (lit "Address") (join (lit ", ") p.addresses)
    ∷ (entry_if (lit "DNS") (listed p.dns)
        ++ (entry_if (lit "ListenPort") (map_some show_ℕ p.listen_port)
            ++ entry_if (lit "MTU") (map_some show_ℕ p.mtu)))

unfoldable pub peer_lines : ParsedConfig → List Text
peer_lines p =
    lit "[Peer]"
    ∷ entry (lit "PublicKey") p.public_key
    ∷ entry (lit "Endpoint") p.endpoint
    ∷ entry (lit "AllowedIPs") (join (lit ", ") p.allowed_ips)
    ∷ (entry_if (lit "PresharedKey") p.preshared_key
        ++ entry_if (lit "PersistentKeepalive") (map_some show_ℕ p.keepalive))

unfoldable pub print : ParsedConfig → Text
print p = unlines (interface_lines p ++ peer_lines p)

-- A value that stands on one line and outside a comment.
pub record IsValue (t : Text) : Type 0 where
  pub not_empty : is_empty t ≡ false
  pub trimmed : IsTrimmed t
  pub no_comment : has b'#' t ≡ false
  pub one_line : has 0xa t ≡ false

-- A value that can stand in a list.
pub record IsItem (t : Text) : Type 0 where
  pub value : IsValue t
  pub no_comma : has b',' t ≡ false

abbrev pub MaybeValue : Option Text → Type 0
MaybeValue none = Unit
MaybeValue (some t) = IsValue t

pub record IsPrintable (p : ParsedConfig) : Type 0 where
  pub private_key : IsValue p.private_key
  pub public_key : IsValue p.public_key
  pub endpoint : IsValue p.endpoint
  pub addresses_any : is_empty p.addresses ≡ false
  pub addresses : All IsItem p.addresses
  pub allowed_any : is_empty p.allowed_ips ≡ false
  pub allowed_ips : All IsItem p.allowed_ips
  pub dns : All IsItem p.dns
  pub preshared_key : MaybeValue p.preshared_key
  pub listen_port : below u16 p.listen_port ≡ true
  pub mtu : below u32 p.mtu ≡ true
  pub keepalive : below u16 p.keepalive ≡ true
