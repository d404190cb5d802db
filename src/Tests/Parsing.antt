-- ===== src/Tests/Parsing.antt =====
-- The tests of daemon/src/wgconf.rs.
use wirefinder.Prelude.{◌≡◌, refl, some, [], ◌∷◌}
use wirefinder.Text.{
  lit, equal, trim, before, split, split_once, strip_prefix, strip_suffix, lines,
  to_ascii_lowercase, eq_ignore_ascii_case, show_ℕ, parse_unsigned,
}
use wirefinder.Result.{ok, err}
use wirefinder.WgConf.{
  ParsedConfig, parse, read_lines, read_line, read_content, key_value, assign, update_iface,
  update_last, set_iface, set_peer, set_scalar, parse_num, csv, content, header, start_section,
  finish, the_peer,
}

abbrev full : ParsedConfig
full = record {
  private_key = lit "aGVsbG8=";
  addresses = lit "10.64.0.2/32" ∷ lit "fc00:bbbb::2/128" ∷ [];
  dns = lit "10.64.0.1" ∷ lit "1.1.1.1" ∷ [];
  listen_port = some 51820;
  mtu = some 1380;
  public_key = lit "c2VydmVy";
  endpoint = lit "1.2.3.4:51820";
  allowed_ips = lit "0.0.0.0/0" ∷ lit "::/0" ∷ [];
  preshared_key = some (lit "cHNr");
  keepalive = some 25;
}

parse-full :
    parse (
      lit
        "# head\r\n[interface]\r\nPrivateKey = aGVsbG8=\r\nAddress = 10.64.0.2/32, fc00:bbbb::2/128 # x\r\nDNS = 10.64.0.1, 1.1.1.1\nListenPort = 51820\nMTU = 1380\n\n[PEER]\nPublicKey = c2VydmVy\nEndpoint = 1.2.3.4:51820\nAllowedIPs = 0.0.0.0/0\nAllowedIPs=::/0\nPresharedKey = cHNr\nPersistentKeepalive = 25\n")
    ≡ ok full
unfolding lit equal trim before split split_once strip_prefix strip_suffix lines to_ascii_lowercase
    eq_ignore_ascii_case show_ℕ parse_unsigned parse read_lines read_line read_content key_value
    assign update_iface update_last set_iface set_peer set_scalar parse_num csv content header
    start_section finish the_peer
parse-full = refl

duplicate :
    parse (lit "[Interface]\nPrivateKey = k\nPrivateKey = k2\n")
    ≡ err (lit "line 3: duplicate 'PrivateKey'")
unfolding lit equal trim before split split_once strip_prefix strip_suffix lines to_ascii_lowercase
    eq_ignore_ascii_case show_ℕ parse_unsigned parse read_lines read_line read_content key_value
    assign update_iface update_last set_iface set_peer set_scalar parse_num csv content header
    start_section finish the_peer
duplicate = refl
