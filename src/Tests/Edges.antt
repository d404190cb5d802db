-- ===== src/Tests/Edges.antt =====
-- The properties of the parser of wg-quick files, of the socket and of the command line at concrete
-- inputs.
use wirefinder.Prelude.{◌≡◌, ◌<◌, refl, none, some, [], ◌∷◌, false, true, List, ◌++◌, arith}
use wirefinder.Text.{
  byte_len, Text, lit, equal, trim, split_once, parse_unsigned, show_ℕ, before, split, strip_prefix,
  strip_suffix, lines, to_ascii_lowercase, eq_ignore_ascii_case,
}
use wirefinder.Result.{ok, err}
use wirefinder.Exec.{pure, ◌>>=◌}
use wirefinder.Proto.{Request, Response}
use wirefinder.Wireguard.Kernel.{status}
use wirefinder.Daemon.Status.{read_status}
use wirefinder.Daemon.Handle.{handle}
use wirefinder.WgConf.{
  ParsedConfig, parse, read_lines, read_line, read_content, key_value, assign, update_iface,
  update_last, set_iface, set_peer, set_scalar, parse_num, csv, content, header, start_section,
  finish, the_peer,
}
use wirefinder.WgConf.Good.{is_panic}
use wirefinder.WgConf.Sound.{parsed_fits, parse_fits, parse_never_panics}
use wirefinder.Server.{read_capped, Json, max_request_bytes, handle_client, request}
use wirefinder.Server.Wire.{is_line, exchange}
use wirefinder.Cli.{prefix_bytes, parse_request, request_of, render, main}
use wirefinder.Cli.Wire.{main-handle_client}
use wirefinder.Cli.Humanize.{
  round_div, spacing, to_f64, scale, tenths, show_tenths, show_scaled, humanize,
}
use wirefinder.Cli.Humanize.Near.{IsNear, humanize-IsNear}
use wirefinder.Cli.Requests.{MaybeBare, parse_request_bare}
use wirefinder.Tests.World.{toy, toy_codec, state_path, toy_ops, toy_wg, at_noon, fresh}

abbrev wg_text : Text
wg_text =
    lit "[Interface]\nPrivateKey=k\nAddress=7/24\nMTU=1380\n[Peer]\nPublicKey=s\nEndpoint=9:1\n"

abbrev wg_parsed : ParsedConfig
wg_parsed = record {
  private_key = lit "k";
  addresses = lit "7/24" ∷ [];
  dns = [];
  listen_port = none;
  mtu = some 1380;
  public_key = lit "s";
  endpoint = lit "9:1";
  allowed_ips = lit "0.0.0.0/0" ∷ [];
  preshared_key = none;
  keepalive = none;
}

wg_parses : parse wg_text ≡ ok wg_parsed
unfolding parse read_lines read_line read_content key_value assign update_iface update_last
    set_iface set_peer set_scalar parse_num csv content header start_section finish the_peer lit
    equal trim before split split_once strip_prefix strip_suffix lines to_ascii_lowercase
    eq_ignore_ascii_case show_ℕ parse_unsigned
wg_parses = refl

parse_fits_example : parsed_fits wg_parsed ≡ true
parse_fits_example = parse_fits wg_text wg_parses

sectionless : parse (lit "MTU=1\n") ≡ err (lit "line 1: 'MTU' appears before any section")
unfolding parse read_lines read_line read_content key_value assign update_iface update_last
    set_iface set_peer set_scalar parse_num csv content header start_section finish the_peer lit
    equal trim before split split_once strip_prefix strip_suffix lines to_ascii_lowercase
    eq_ignore_ascii_case show_ℕ parse_unsigned
sectionless = refl

parse_never_panics_example : is_panic (lit "line 1: 'MTU' appears before any section") ≡ false
parse_never_panics_example = parse_never_panics (lit "MTU=1\n") sectionless

abbrev toy_json : Json
toy_json = record {
  encode_request = λ req. ok (lit "?");
  decode_request = λ t. ok Request.status;
  encode_response = λ r. ok (lit "!");
  decode_response = λ t. ok Response.disconnected;
}

down :
    ok Response.disconnected
    ≡ ok (handle toy toy_codec state_path toy_wg at_noon Request.status fresh).0
unfolding handle read_status status toy_ops pure ◌>>=◌
down = refl

one_line : is_line (lit "?") ≡ true
unfolding lit
one_line = refl

one_line_back : is_line (lit "!") ≡ true
unfolding lit
one_line_back = refl

short : byte_len (lit "?") < max_request_bytes
unfolding lit byte_len
short = omega arith

abbrev add_args : List Text
add_args = lit "add" ∷ lit "home" ∷ lit "s" ∷ lit "9:1" ∷ lit "7/24" ∷ []

parse_request_bare_example : MaybeBare (parse_request add_args)
parse_request_bare_example = parse_request_bare add_args

info_asked :
    request_of (λ file. err (lit "no file")) (λ path. none) (lit "info" ∷ []) ≡ ok Request.status
unfolding request_of parse_request lit equal
info_asked = refl

main-handle_client_example :
    (main
        (λ t. t)
        (λ file. err (lit "no file"))
        (λ path. none)
        (request toy_json (exchange toy_json toy toy_codec state_path toy_wg at_noon fresh))
        (lit "info" ∷ [])
      ≡ render
          (λ t. t)
          (handle toy toy_codec state_path toy_wg at_noon Request.status fresh).0
          none)
    × ((handle_client toy_json toy toy_codec state_path toy_wg at_noon
          (record { received = ok (lit "?" ++ lit "\n"); sent = ok tt })
          fresh).1
        ≡ (handle toy toy_codec state_path toy_wg at_noon Request.status fresh).1)
main-handle_client_example =
    main-handle_client (λ t. t) (λ file. err (lit "no file")) (λ path. none) toy_json toy toy_codec
      state_path toy_wg at_noon fresh (lit "info" ∷ []) Request.status (lit "?") (lit "!")
      info_asked refl one_line short refl refl one_line_back down

humanize-IsNear_example : IsNear 1_048_575 (humanize 1_048_575)
humanize-IsNear_example = humanize-IsNear 1_048_575 (omega arith)

-- The bytes below a unit, a tie, the largest number before the next unit, an inexact double.
humanized :
    (humanize 1023 ≡ lit "1023 B")
    × (humanize 1280 ≡ lit "1.2 KiB")
    × (humanize 1_048_575 ≡ lit "1024.0 KiB")
    × (humanize 5_368_709_120 ≡ lit "5.0 GiB")
    × (humanize 18_446_744_073_709_551_615 ≡ lit "17179869184.0 GiB")
unfolding lit humanize to_f64 round_div spacing scale show_scaled tenths show_tenths show_ℕ
humanized = (refl, refl, refl, refl, refl)

nothing_asked : request_of (λ file. err (lit "no file")) (λ path. none) (lit "frob" ∷ []) ≡ err []
unfolding request_of parse_request lit equal
nothing_asked = refl

-- The cap on a request and the cut of a key count bytes: `é` and `…` take two and three.
counts_bytes :
    (read_capped 3 (lit "aé\n") ≡ ok (lit "aé"))
    × (read_capped 2 (lit "aé\n") ≡ err (lit "stream did not contain valid UTF-8"))
    × (prefix_bytes 4 (lit "a…b") ≡ ok (lit "a…"))
    × (prefix_bytes 3 (lit "a…b") ≡ err (lit "panic: the index is not a char boundary"))
unfolding read_capped prefix_bytes lit
counts_bytes = (refl, refl, refl, refl)
