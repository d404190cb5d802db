-- ===== src/WgConf/RoundTrip.antt =====
-- `parse` of daemon/src/wgconf.rs reads every canonical file back.
use wirefinder.Prelude.{
  ℕ, false, Option, none, some, List, [], ◌∷◌, ◌++◌, ◌≡◌, refl, sym, ap, ◌∙◌, map_some,
}
use wirefinder.Prelude.Lists.{All, All-append, is_empty}
use wirefinder.Text.{Text, is_whitespace, lit, join, show_ℕ}
use wirefinder.Text.Lines.{IsLine, lines-unlines}
use wirefinder.Result.{ok}
use wirefinder.WgConf.{
  ParsedConfig, Iface, PeerAcc, start, iface_default, peer_default, read_lines, the_peer, finish,
  parse,
}
use wirefinder.WgConf.Print.{
  entry_if, listed, interface_lines, peer_lines, print, IsValue, IsItem, MaybeValue, IsPrintable,
}
use wirefinder.WgConf.Entry.{IsWord, entry-IsLine}
use wirefinder.WgConf.Csv.{join-IsValue}
use wirefinder.WgConf.Reads.{Reads, Reads-append, in_interface, in_peer, show_ℕ-IsValue}
use wirefinder.WgConf.InterfaceLines.{
  private_key-IsWord, address-IsWord, dns-IsWord, listen_port-IsWord, mtu-IsWord, Reads-interface,
  Reads-private_key, Reads-address, Reads-dns, Reads-listen_port, Reads-mtu,
}
use wirefinder.WgConf.PeerLines.{
  public_key-IsWord, endpoint-IsWord, allowed_ips-IsWord, preshared_key-IsWord, keepalive-IsWord,
  Reads-peer_section, Reads-public_key, Reads-endpoint, Reads-allowed_ips, Reads-preshared_key,
  Reads-keepalive,
}

abbrev iface_of : ParsedConfig → Iface
iface_of p = record {
  private_key = some p.private_key;
  addresses = p.addresses;
  dns = p.dns;
  listen_port = p.listen_port;
  mtu = p.mtu;
}

abbrev peer_of : ParsedConfig → PeerAcc
peer_of p = record {
  public_key = some p.public_key;
  endpoint = some p.endpoint;
  allowed_ips = p.allowed_ips;
  preshared_key = p.preshared_key;
  keepalive = p.keepalive;
}

module _ (p : ParsedConfig) (w : IsPrintable p) where
  Reads-interface_lines : Reads (interface_lines p) start (in_interface (iface_of p))
  unfolding interface_lines
  Reads-interface_lines = Reads-append Reads-interface (
      Reads-append (Reads-private_key iface_default p.private_key refl w.private_key) (
        Reads-append (Reads-address _ p.addresses refl w.addresses_any w.addresses) (
          Reads-append (Reads-dns _ p.dns refl w.dns) (
            Reads-append (Reads-listen_port _ p.listen_port refl w.listen_port)
              (Reads-mtu _ p.mtu refl w.mtu)))))

  Reads-peer_lines : (i : Iface) → Reads (peer_lines p) (in_interface i) (in_peer i (peer_of p))
  unfolding peer_lines
  Reads-peer_lines i = Reads-append (Reads-peer_section i) (
      Reads-append (Reads-public_key i peer_default p.public_key refl w.public_key) (
        Reads-append (Reads-endpoint i _ p.endpoint refl w.endpoint) (
          Reads-append (Reads-allowed_ips i _ p.allowed_ips refl w.allowed_any w.allowed_ips) (
            Reads-append (Reads-preshared_key i _ p.preshared_key refl w.preshared_key)
              (Reads-keepalive i _ p.keepalive refl w.keepalive)))))

  finish_printed : finish (in_peer (iface_of p) (peer_of p)) ≡ ok p
  unfolding finish the_peer
  finish_printed = rw (w.addresses_any, w.allowed_any) refl

append_none : (ls : List Text) → ls ++ [] ≡ ls
append_none [] = refl
append_none (l ∷ ls) = ap (λ t. l ∷ t) (append_none ls)

entry_if-IsLine :
    (key : Text) (o : Option Text) → IsWord key → MaybeValue o → All IsLine (entry_if key o)
entry_if-IsLine key none w v = tt
entry_if-IsLine key (some value) w v = (entry-IsLine key value w v, tt)

listed-MaybeValue : (vs : List Text) → All IsItem vs → MaybeValue (listed vs)
listed-MaybeValue [] h = tt
listed-MaybeValue (v ∷ vs) h = join-IsValue v vs h

join-value : (vs : List Text) → is_empty vs ≡ false → All IsItem vs → IsValue (join (lit ", ") vs)
join-value [] e h = absurd (cc e)
join-value (v ∷ vs) e h = join-IsValue v vs h

shown-MaybeValue : (o : Option ℕ) → MaybeValue (map_some show_ℕ o)
shown-MaybeValue none = tt
shown-MaybeValue (some k) = show_ℕ-IsValue k

interface_header-IsLine : IsLine (lit "[Interface]")
unfolding lit is_whitespace
interface_header-IsLine = record { one_line = refl; ends = refl }

peer_header-IsLine : IsLine (lit "[Peer]")
unfolding lit is_whitespace
peer_header-IsLine = record { one_line = refl; ends = refl }

module _ (p : ParsedConfig) (w : IsPrintable p) where
  interface_lines-IsLine : All IsLine (interface_lines p)
  unfolding interface_lines
  interface_lines-IsLine = (
    interface_header-IsLine,
    (
      entry-IsLine _ p.private_key private_key-IsWord w.private_key,
      (
        entry-IsLine _ _ address-IsWord (join-value p.addresses w.addresses_any w.addresses),
        All-append IsLine _ _ (entry_if-IsLine _ _ dns-IsWord (listed-MaybeValue p.dns w.dns)) (
            All-append IsLine _ _
              (entry_if-IsLine _ _ listen_port-IsWord (shown-MaybeValue p.listen_port))
              (entry_if-IsLine _ _ mtu-IsWord (shown-MaybeValue p.mtu))),
      ),
    ),
  )

  peer_lines-IsLine : All IsLine (peer_lines p)
  unfolding peer_lines
  peer_lines-IsLine = (
    peer_header-IsLine,
    (
      entry-IsLine _ p.public_key public_key-IsWord w.public_key,
      (
        entry-IsLine _ p.endpoint endpoint-IsWord w.endpoint,
        (
          entry-IsLine _ _ allowed_ips-IsWord
              (join-value p.allowed_ips w.allowed_any w.allowed_ips),
          All-append IsLine _ _ (entry_if-IsLine _ _ preshared_key-IsWord w.preshared_key)
              (entry_if-IsLine _ _ keepalive-IsWord (shown-MaybeValue p.keepalive)),
        ),
      ),
    ),
  )

  -- If every text of a configuration is not empty, trimmed, on one line and without `#`, those of its lists without commas
  -- too, it has an address and an allowed IP, and its numbers are below their limits: the canonical file of
  -- the configuration is parsed, and as that configuration.
  pub parse-print : parse (print p) ≡ ok p
  unfolding parse print read_lines
  parse-print =
      let ls = interface_lines p ++ peer_lines p in
      let reads =
        (Reads-append (Reads-interface_lines p w) (Reads-peer_lines p w (iface_of p))).at 1 [] in
      let read : read_lines start 1 ls ≡ ok (in_peer (iface_of p) (peer_of p)) =
        ap (read_lines start 1) (sym (append_none ls)) ∙ reads.1 in
      rw
        (
          lines-unlines ls (
              All-append IsLine (interface_lines p) (peer_lines p) interface_lines-IsLine
                peer_lines-IsLine),
          read,
        )
        (finish_printed p w)
