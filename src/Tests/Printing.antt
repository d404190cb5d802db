-- ===== src/Tests/Printing.antt =====
-- The round trips of texts at concrete inputs.
use wirefinder.Prelude.{◌≡◌, ◌^◌, refl, none, some, [], ◌∷◌}
use wirefinder.Text.{
  Text, is_whitespace, lit, equal, trim, split_once, parse_unsigned, show_ℕ, before, strip_suffix,
  lines,
}
use wirefinder.Result.{to_option, ok, traverse}
use wirefinder.Exec.{pure, lift, attempt, raise, ◌>>=◌}
use wirefinder.Config.{ServerConfig, named, find_server, replace_first, upsert_server}
use wirefinder.Config.Store.{save, naming, write_private, directory, create_parent, sync_parent}
use wirefinder.Config.Store.Fs.{
  next_fault, rsplit_dot, stem_of, file_stem, with_extension, shown, put, next_fault, call, outcome,
  settle, touch, opened, open_truncate, take, append_to, write_all, rename,
}
use wirefinder.Wireguard.Validate.{
  from_lookup, resolve_endpoint, or_cached, endpoint_addr, parse_address, parse_addresses,
  parse_allowed_ip, parse_dns_entry, parse_dns, parse_named_key, parse_preshared, build_peer,
  peer_endpoint, validate_server,
}
use wirefinder.Daemon.State.{Daemon, on_backend, get_cfg, set_cfg, persist}
use wirefinder.Daemon.Servers.{import_server, get_server, spec_of, server_of, commit, add_server}
use wirefinder.Daemon.Import.{IsImported, detail_of, import_server-get_server}
use wirefinder.WgConf.{ParsedConfig, parse, parse_num, content}
use wirefinder.WgConf.Print.{print, IsPrintable}
use wirefinder.WgConf.RoundTrip.{parse-print}
use wirefinder.WgConf.Comments.{contents, parse-contents}
use wirefinder.WgConf.Reads.{parse_num-show_ℕ}
use wirefinder.Tests.World.{toy, toy_codec, state_path, at_noon, fresh, Up}

abbrev mullvad : ParsedConfig
mullvad = record {
  private_key = lit "k=";
  addresses = lit "10.0.0.2/32" ∷ lit "fc00::2/128" ∷ [];
  dns = lit "10.64.0.1" ∷ [];
  listen_port = none;
  mtu = some 1380;
  public_key = lit "s=";
  endpoint = lit "vpn.example.com:51820";
  allowed_ips = lit "0.0.0.0/0" ∷ lit "::/0" ∷ [];
  preshared_key = none;
  keepalive = some 25;
}

mullvad-IsPrintable : IsPrintable mullvad
unfolding lit is_whitespace
mullvad-IsPrintable = record {
  private_key = record {
    not_empty = refl;
    trimmed = record { starts = refl; ends = refl };
    no_comment = refl;
    one_line = refl;
  };
  public_key = record {
    not_empty = refl;
    trimmed = record { starts = refl; ends = refl };
    no_comment = refl;
    one_line = refl;
  };
  endpoint = record {
    not_empty = refl;
    trimmed = record { starts = refl; ends = refl };
    no_comment = refl;
    one_line = refl;
  };
  addresses_any = refl;
  addresses = (
    record {
      value = record {
        not_empty = refl;
        trimmed = record { starts = refl; ends = refl };
        no_comment = refl;
        one_line = refl;
      };
      no_comma = refl;
    },
    (
      record {
        value = record {
          not_empty = refl;
          trimmed = record { starts = refl; ends = refl };
          no_comment = refl;
          one_line = refl;
        };
        no_comma = refl;
      },
      tt,
    ),
  );
  allowed_any = refl;
  allowed_ips = (
    record {
      value = record {
        not_empty = refl;
        trimmed = record { starts = refl; ends = refl };
        no_comment = refl;
        one_line = refl;
      };
      no_comma = refl;
    },
    (
      record {
        value = record {
          not_empty = refl;
          trimmed = record { starts = refl; ends = refl };
          no_comment = refl;
          one_line = refl;
        };
        no_comma = refl;
      },
      tt,
    ),
  );
  dns = (
    record {
      value = record {
        not_empty = refl;
        trimmed = record { starts = refl; ends = refl };
        no_comment = refl;
        one_line = refl;
      };
      no_comma = refl;
    },
    tt,
  );
  preshared_key = tt;
  listen_port = refl;
  mtu = refl;
  keepalive = refl;
}

parse-print_example : parse (print mullvad) ≡ ok mullvad
parse-print_example = parse-print mullvad mullvad-IsPrintable

abbrev toy_conf : ParsedConfig
toy_conf = record {
  private_key = lit "k";
  addresses = lit "7/24" ∷ [];
  dns = [];
  listen_port = some 0;
  mtu = none;
  public_key = lit "s";
  endpoint = lit "9:51820";
  allowed_ips = lit "0/0" ∷ [];
  preshared_key = none;
  keepalive = some 25;
}

toy_conf-IsPrintable : IsPrintable toy_conf
unfolding lit is_whitespace
toy_conf-IsPrintable = record {
  private_key = record {
    not_empty = refl;
    trimmed = record { starts = refl; ends = refl };
    no_comment = refl;
    one_line = refl;
  };
  public_key = record {
    not_empty = refl;
    trimmed = record { starts = refl; ends = refl };
    no_comment = refl;
    one_line = refl;
  };
  endpoint = record {
    not_empty = refl;
    trimmed = record { starts = refl; ends = refl };
    no_comment = refl;
    one_line = refl;
  };
  addresses_any = refl;
  addresses = (
    record {
      value = record {
        not_empty = refl;
        trimmed = record { starts = refl; ends = refl };
        no_comment = refl;
        one_line = refl;
      };
      no_comma = refl;
    },
    tt,
  );
  allowed_any = refl;
  allowed_ips = (
    record {
      value = record {
        not_empty = refl;
        trimmed = record { starts = refl; ends = refl };
        no_comment = refl;
        one_line = refl;
      };
      no_comma = refl;
    },
    tt,
  );
  dns = tt;
  preshared_key = tt;
  listen_port = refl;
  mtu = refl;
  keepalive = refl;
}

imports :
    (import_server toy toy_codec state_path at_noon (lit " home ") (print toy_conf) fresh).0 ≡ ok tt
unfolding import_server spec_of add_server lit equal trim split_once parse_unsigned show_ℕ
    from_lookup resolve_endpoint or_cached endpoint_addr parse_address parse_addresses
    parse_allowed_ip parse_dns_entry parse_dns parse_named_key parse_preshared build_peer
    peer_endpoint validate_server traverse pure lift attempt raise ◌>>=◌ naming write_private
    directory create_parent sync_parent save rsplit_dot stem_of file_stem with_extension shown put
    next_fault call outcome settle touch opened open_truncate take append_to write_all rename named
    find_server replace_first upsert_server on_backend get_cfg set_cfg persist server_of commit
imports = rw (parse-print toy_conf toy_conf-IsPrintable) refl

abbrev after_import : Daemon Up
after_import =
    (import_server toy toy_codec state_path at_noon (lit " home ") (print toy_conf) fresh).1

import_server-get_server_example :
    (s : ServerConfig) × (find_server after_import.cfg (trim (lit " home ")) ≡ some s)
    × IsImported (trim (lit " home ")) toy_conf s
    × (get_server (trim (lit " home ")) after_import.cfg
        ≡ ok (detail_of (trim (lit " home ")) toy_conf))
import_server-get_server_example =
    import_server-get_server toy toy_codec state_path at_noon (lit " home ") toy_conf fresh
      toy_conf-IsPrintable imports

parse_num-show_ℕ_example : parse_num (2 ^ 16) (lit "ListenPort") (show_ℕ 51820) 3 ≡ ok (some 51820)
parse_num-show_ℕ_example = parse_num-show_ℕ (2 ^ 16) 51820 (lit "ListenPort") 3

abbrev plain_text : Text
plain_text = lit "[Interface]\nPrivateKey = k\nAddress = a\n[Peer]\nPublicKey = p\nEndpoint = h:1\n"

abbrev commented_text : Text
commented_text =
    lit
      "# head\r\n\n[Interface]\r\n  PrivateKey = k # secret\nAddress = a\n  \n[Peer]\nPublicKey = p\nEndpoint = h:1"

same_contents : contents (lines plain_text) ≡ contents (lines commented_text)
unfolding content lit lines trim before strip_suffix
same_contents = refl

parse-contents_example : to_option (parse plain_text) ≡ to_option (parse commented_text)
parse-contents_example = parse-contents plain_text commented_text same_contents
