-- ===== src/Wireguard/Firewall.antt =====
-- `nft_script` of daemon/src/wireguard.rs.
use wirefinder.Prelude.{
  ℕ, Bool, true, false, not, ◌==◌, Option, none, some, List, [], ◌∷◌, ◌++◌, keep,
}
use wirefinder.Prelude.Lists.{retain}
use wirefinder.Text.{Text, lit, show_ℕ}
use wirefinder.External.{External, IpAddrMask, is_ipv6}

abbrev pub nft_table : Text
nft_table = lit "wirefinder"

-- NFT_PRIORITY_RAW and NFT_PRIORITY_MANGLE, as `{}` prints them
abbrev pub nft_priority_raw : Text
nft_priority_raw = lit "-300"

abbrev pub nft_priority_mangle : Text
nft_priority_mangle = lit "-150"

-- `for (family, want_v6) in [("ip", false), ("ip6", true)]`
abbrev pub family : Bool → Text
family false = lit "ip"
family true = lit "ip6"

abbrev pub of_family : Bool → IpAddrMask → Bool
of_family true a = is_ipv6 a.address
of_family false a = not (is_ipv6 a.address)

abbrev pub retire : Bool → Text
retire v6 =
    lit "add table "
    ++ family v6
    ++ lit " "
    ++ nft_table
    ++ lit "\n"
    ++ lit "delete table "
    ++ family v6
    ++ lit " "
    ++ nft_table
    ++ lit "\n"

module _ (x : External) (ifname : Text) where
  unfoldable pub guard_rule : Bool → IpAddrMask → Text
  guard_rule v6 addr =
      lit "\t\tiifname != \""
      ++ ifname
      ++ lit "\" "
      ++ family v6
      ++ lit " daddr "
      ++ x.show_ip addr.address
      ++ lit " fib saddr type != local drop\n"

  unfoldable pub guard_rules : Bool → List IpAddrMask → Text
  guard_rules v6 [] = []
  guard_rules v6 (a ∷ rest) = guard_rule v6 a ++ guard_rules v6 rest

unfoldable pub mark_chains : ℕ → Text
mark_chains mark =
    lit "\tchain premangle {\n\t\ttype filter hook prerouting priority "
    ++ nft_priority_mangle
    ++ lit ";\n\t\tmeta l4proto udp meta mark set ct mark\n\t}\n"
    ++ lit "\tchain postmangle {\n\t\ttype filter hook postrouting priority "
    ++ nft_priority_mangle
    ++ lit ";\n\t\tmeta l4proto udp mark "
    ++ show_ℕ mark
    ++ lit " ct mark set mark\n\t}\n"

unfoldable pub connmark : Option ℕ → Text
connmark none = []
connmark (some mark) = mark_chains mark

-- A mark of zero is none.
abbrev pub nonzero : Option ℕ → Option ℕ
nonzero = keep (λ m. not (m == 0))

module _ (x : External) (ifname : Text) where
  -- What follows the deletion, for the addresses of one family.
  unfoldable pub declare : Bool → List IpAddrMask → Option ℕ → Text
  declare v6 [] fwmark = []
  declare v6 (a ∷ rest) fwmark =
      lit "table "
      ++ family v6
      ++ lit " "
      ++ nft_table
      ++ lit " {\n"
      ++ lit "\tchain preraw {\n\t\ttype filter hook prerouting priority "
      ++ nft_priority_raw
      ++ lit ";\n"
      ++ guard_rules x ifname v6 (a ∷ rest)
      ++ lit "\t}\n"
      ++ connmark (nonzero fwmark)
      ++ lit "}\n"

  unfoldable pub family_script : Bool → List IpAddrMask → Option ℕ → Text
  family_script v6 addresses fwmark =
      retire v6 ++ declare v6 (retain (of_family v6) addresses) fwmark

  unfoldable pub nft_script : List IpAddrMask → Option ℕ → Text
  nft_script addresses fwmark =
      family_script false addresses fwmark ++ family_script true addresses fwmark
