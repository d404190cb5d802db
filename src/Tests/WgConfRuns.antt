-- ===== src/Tests/WgConfRuns.antt =====
-- The tests of daemon/src/wgconf.rs, by name.
use wirefinder.Prelude.{Bool, true, ◌≡◌, refl, none, some, [], ◌∷◌}
use wirefinder.Text.{
  Text, lit, equal, trim, before, split, split_once, strip_prefix, strip_suffix, lines, contains,
  to_ascii_lowercase, eq_ignore_ascii_case, show_ℕ, parse_unsigned,
}
use wirefinder.WgConf.{
  ParsedConfig, parse, read_lines, read_line, read_content, key_value, assign, update_iface,
  update_last, set_iface, set_peer, set_scalar, parse_num, csv, content, header, start_section,
  finish, the_peer,
}
use wirefinder.Tests.Assert.{all, same_text, same_texts, same_number, holds, is_err, fails_on}

-- `parse(text).unwrap()` and what is asserted of it
abbrev parsed : Text → (ParsedConfig → Bool) → Bool
parsed text p = holds p (parse text)

-- `err(text).contains(part)`
abbrev fails_with : Text → Text → Bool
fails_with text part = fails_on (parse text) part

abbrev parses_a_full_mullvad_style_config : Bool
parses_a_full_mullvad_style_config =
    parsed
      (lit
        "[Interface]\nPrivateKey = aGVsbG8=\nAddress = 10.64.0.2/32, fc00:bbbb::2/128\nDNS = 10.64.0.1, 1.1.1.1\nListenPort = 51820\nMTU = 1380\n\n[Peer]\nPublicKey = c2VydmVy\nEndpoint = 1.2.3.4:51820\nAllowedIPs = 0.0.0.0/0, ::/0\nPresharedKey = cHNr\nPersistentKeepalive = 25\n")
      (λ c. all (
        equal c.private_key (lit "aGVsbG8=")
        ∷ same_texts c.addresses (lit "10.64.0.2/32" ∷ lit "fc00:bbbb::2/128" ∷ [])
        ∷ same_texts c.dns (lit "10.64.0.1" ∷ lit "1.1.1.1" ∷ [])
        ∷ same_number c.listen_port (some 51820)
        ∷ same_number c.mtu (some 1380)
        ∷ equal c.public_key (lit "c2VydmVy")
        ∷ equal c.endpoint (lit "1.2.3.4:51820")
        ∷ same_texts c.allowed_ips (lit "0.0.0.0/0" ∷ lit "::/0" ∷ [])
        ∷ same_text c.preshared_key (some (lit "cHNr"))
        ∷ same_number c.keepalive (some 25)
        ∷ []))

abbrev parses_a_minimal_client_config : Bool
parses_a_minimal_client_config =
    parsed
      (lit
        "[Interface]\nPrivateKey = k\nAddress = 10.0.0.2/24\n[Peer]\nPublicKey = p\nEndpoint = h:51820\nAllowedIPs = 0.0.0.0/0\n")
      (λ c. all (
        same_texts c.dns ([])
        ∷ same_number c.listen_port none
        ∷ same_number c.mtu none
        ∷ same_number c.keepalive none
        ∷ same_text c.preshared_key none
        ∷ []))

abbrev comments_blank_lines_and_crlf_are_handled : Bool
comments_blank_lines_and_crlf_are_handled =
    parsed
      (lit
        "# a header comment\r\n\r\n[Interface]\r\nPrivateKey = k\r\nAddress = 10.0.0.2/24 # trailing\r\n\r\n[Peer]\r\nPublicKey = p\r\nEndpoint = h:51820\r\nAllowedIPs = 0.0.0.0/0\r\n")
      (λ c. all (
        equal c.private_key (lit "k")
        ∷ same_texts c.addresses (lit "10.0.0.2/24" ∷ [])
        ∷ equal c.endpoint (lit "h:51820")
        ∷ []))

abbrev semicolon_is_not_a_comment_delimiter : Bool
semicolon_is_not_a_comment_delimiter =
    parsed
      (lit
        "[Interface]\nPrivateKey = k;x\nAddress = 10.0.0.2/24\n[Peer]\nPublicKey = p\nEndpoint = h:51820\nAllowedIPs = 0.0.0.0/0\n")
      (λ c. all (equal c.private_key (lit "k;x") ∷ []))

abbrev sections_and_keys_are_case_insensitive : Bool
sections_and_keys_are_case_insensitive =
    parsed
      (lit
        "[interface]\nprivatekey = k\nADDRESS = 10.0.0.2/24\n[PEER]\nPublicKey = p\nendPoint = h:51820\nallowedips = 0.0.0.0/0\n")
      (λ c. all (equal c.private_key (lit "k") ∷ equal c.endpoint (lit "h:51820") ∷ []))

abbrev whitespace_and_ragged_comma_lists_are_trimmed : Bool
whitespace_and_ragged_comma_lists_are_trimmed =
    parsed
      (lit
        "[Interface]\nPrivateKey   =   k\nAddress = 10.0.0.2/24 ,10.0.0.3/24\n[Peer]\nPublicKey=p\nEndpoint=h:51820\nAllowedIPs = 0.0.0.0/0\n")
      (λ c. all (same_texts c.addresses (lit "10.0.0.2/24" ∷ lit "10.0.0.3/24" ∷ []) ∷ []))

abbrev list_keys_accumulate_across_repeats : Bool
list_keys_accumulate_across_repeats =
    parsed
      (lit
        "[Interface]\nPrivateKey = k\nAddress = 10.0.0.2/24\n[Peer]\nPublicKey = p\nEndpoint = h:51820\nAllowedIPs = 0.0.0.0/0\nAllowedIPs = ::/0\n")
      (λ c. all (same_texts c.allowed_ips (lit "0.0.0.0/0" ∷ lit "::/0" ∷ []) ∷ []))

abbrev unknown_keys_are_ignored : Bool
unknown_keys_are_ignored =
    parsed
      (lit
        "[Interface]\nPrivateKey = k\nAddress = 10.0.0.2/24\nTable = off\nPostUp = true\n[Peer]\nPublicKey = p\nEndpoint = h:51820\nAllowedIPs = 0.0.0.0/0\n")
      (λ c. all (equal c.private_key (lit "k") ∷ []))

abbrev missing_allowed_ips_defaults_to_full_tunnel : Bool
missing_allowed_ips_defaults_to_full_tunnel =
    parsed
      (lit
        "[Interface]\nPrivateKey = k\nAddress = 10.0.0.2/24\n[Peer]\nPublicKey = p\nEndpoint = h:51820\n")
      (λ c. all (same_texts c.allowed_ips (lit "0.0.0.0/0" ∷ []) ∷ []))

abbrev structural_errors_are_named : Bool
structural_errors_are_named = all (
    fails_with (lit "") (lit "missing [Interface]")
    ∷ fails_with (lit "[Peer]\nPublicKey = p\nEndpoint = h:1\n") (lit "missing [Interface]")
    ∷ fails_with (lit "[Interface]\nPrivateKey = k\nAddress = a\n") (lit "missing [Peer]")
    ∷ fails_with (lit "[Interface]\nAddress = a\n[Peer]\nPublicKey = p\nEndpoint = h:1\n")
        (lit "missing PrivateKey")
    ∷ fails_with (lit "[Interface]\nPrivateKey = k\n[Peer]\nPublicKey = p\nEndpoint = h:1\n")
        (lit "missing Address")
    ∷ fails_with (lit "[Interface]\nPrivateKey = k\nAddress = a\n[Peer]\nEndpoint = h:1\n")
        (lit "missing PublicKey")
    ∷ fails_with (lit "[Interface]\nPrivateKey = k\nAddress = a\n[Peer]\nPublicKey = p\n")
        (lit "missing Endpoint")
    ∷ [])

abbrev multiple_peers_are_rejected : Bool
multiple_peers_are_rejected = all (
    fails_with
      (lit
        "[Interface]\nPrivateKey = k\nAddress = a\n[Peer]\nPublicKey = p1\nEndpoint = h:1\nAllowedIPs = 0.0.0.0/0\n[Peer]\nPublicKey = p2\nEndpoint = h:2\nAllowedIPs = 0.0.0.0/0\n")
      (lit "one peer per config")
    ∷ [])

abbrev multiple_interfaces_are_rejected : Bool
multiple_interfaces_are_rejected = all (
    fails_with (lit "[Interface]\nPrivateKey = k\n[Interface]\n") (lit "multiple [Interface]") ∷ [])

abbrev unknown_section_is_rejected : Bool
unknown_section_is_rejected = all (fails_with (lit "[Bogus]\nx = y\n") (lit "unknown section") ∷ [])

abbrev key_value_before_a_section_is_rejected : Bool
key_value_before_a_section_is_rejected =
    all (fails_with (lit "PrivateKey = k\n") (lit "before any section") ∷ [])

abbrev a_line_without_equals_is_rejected : Bool
a_line_without_equals_is_rejected =
    all (fails_with (lit "[Interface]\nPrivateKey foo\n") (lit "expected 'key = value'") ∷ [])

abbrev non_numeric_port_is_rejected : Bool
non_numeric_port_is_rejected = all (
    fails_with
      (lit
        "[Interface]\nPrivateKey = k\nAddress = a\nListenPort = abc\n[Peer]\nPublicKey = p\nEndpoint = h:1\nAllowedIPs = 0.0.0.0/0\n")
      (lit "must be a number")
    ∷ [])

abbrev duplicate_scalar_key_is_rejected : Bool
duplicate_scalar_key_is_rejected = all (
    fails_with
      (lit
        "[Interface]\nPrivateKey = k\nPrivateKey = k2\nAddress = a\n[Peer]\nPublicKey = p\nEndpoint = h:1\n")
      (lit "duplicate 'PrivateKey'")
    ∷ [])

abbrev junk_input_errors_without_panicking : Bool
junk_input_errors_without_panicking =
    all (is_err (parse (lit "hello world")) ∷ is_err (parse (0 ∷ 0 ∷ 0 ∷ [])) ∷ [])

-- Every test passes.
wg_conf_runs_pass :
    all (
      parses_a_full_mullvad_style_config ∷ parses_a_minimal_client_config
      ∷ comments_blank_lines_and_crlf_are_handled ∷ semicolon_is_not_a_comment_delimiter
      ∷ sections_and_keys_are_case_insensitive ∷ whitespace_and_ragged_comma_lists_are_trimmed
      ∷ list_keys_accumulate_across_repeats ∷ unknown_keys_are_ignored
      ∷ missing_allowed_ips_defaults_to_full_tunnel ∷ structural_errors_are_named
      ∷ multiple_peers_are_rejected ∷ multiple_interfaces_are_rejected ∷ unknown_section_is_rejected
      ∷ key_value_before_a_section_is_rejected ∷ a_line_without_equals_is_rejected
      ∷ non_numeric_port_is_rejected ∷ duplicate_scalar_key_is_rejected
      ∷ junk_input_errors_without_panicking ∷ [])
    ≡ true
unfolding lit equal trim before split split_once strip_prefix strip_suffix lines to_ascii_lowercase
    eq_ignore_ascii_case show_ℕ parse_unsigned contains parse read_lines read_line read_content
    key_value assign update_iface update_last set_iface set_peer set_scalar parse_num csv content
    header start_section finish the_peer
wg_conf_runs_pass = refl
