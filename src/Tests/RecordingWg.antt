-- ===== src/Tests/RecordingWg.antt =====
-- `RecordingWg` of the tests of daemon/src/wireguard.rs: it records every operation and replays
-- scripted readings of the interface.
use wirefinder.Prelude.{
  ℕ, suc, Bool, true, false, ◌&&◌, Option, none, some, List, [], ◌∷◌, ◌++◌, if◌then◌else◌, map,
  map_some, ltb,
}
use wirefinder.Text.{Text, lit}
use wirefinder.Result.{Result, ok, err}
use wirefinder.External.{Peer, InterfaceConfiguration, Host, SocketAddr}
use wirefinder.Exec.{Exec}
use wirefinder.Config.{ServerConfig}
use wirefinder.Wireguard.Kernel.{WgOps, switch}
use wirefinder.Tests.Assert.{same_texts, same_number}
use wirefinder.Tests.Sample.{sample, generated_key, unasked}

pub record Configured : Type 0 where
  pub prvkey : Text
  pub addresses : List Text
  pub port : ℕ
  pub mtu : Option ℕ
  pub peer_keys : List Text
  pub fwmark : Option ℕ

pub data WgCall : Type 0 where
  create_interface : WgCall
  remove_interface : WgCall
  configure_interface : Configured → WgCall
  configure_peer_routing : List Text → WgCall
  sync_split_routes : List Text → WgCall
  apply_firewall : List Text → Option ℕ → WgCall
  clear_firewall : WgCall
  configure_dns : List Text → WgCall
  reset_dns : WgCall
  read_interface_data : WgCall

pub record RecordingWg : Type 0 where
  pub calls : List WgCall
  pub reads : List (Result (Host Text))
  pub reset_dns_err : Bool

abbrev pub fresh_wg : List (Result (Host Text)) → RecordingWg
fresh_wg reads = record { calls = []; reads = reads; reset_dns_err = false }

abbrev recorded : WgCall → RecordingWg → RecordingWg
recorded c wg = record wg { calls = wg.calls ++ c ∷ [] }

abbrev records : WgCall → Exec RecordingWg (Unit {0})
records c wg = (ok tt, recorded c wg)

-- The last scripted reading repeats.
abbrev next_read : List (Result (Host Text)) → Result (Host Text) × List (Result (Host Text))
next_read [] = (err (lit "no scripted read"), [])
next_read (r ∷ []) = (r, r ∷ [])
next_read (r ∷ s ∷ rest) = (r, s ∷ rest)

abbrev reset_outcome : Bool → Result (Unit {0})
reset_outcome true = err (lit "resolvconf -d failed")
reset_outcome false = ok tt

abbrev shown_configuration : InterfaceConfiguration Text → Configured
shown_configuration cfg = record {
  prvkey = cfg.prvkey;
  addresses = map sample.show_mask cfg.addresses;
  port = cfg.port;
  mtu = cfg.mtu;
  peer_keys = map (λ (p : Peer Text). p.public_key) cfg.peers;
  fwmark = cfg.fwmark;
}

unfoldable pub recording_ops : WgOps Text RecordingWg
recording_ops = record {
  create_interface = records create_interface;
  remove_interface = records remove_interface;
  configure_interface = λ cfg. records (configure_interface (shown_configuration cfg));
  configure_peer_routing =
      λ peers. records (configure_peer_routing (map (λ p. p.public_key) peers));
  sync_split_routes = λ prefixes. records (sync_split_routes (map sample.show_mask prefixes));
  apply_firewall = λ addresses mark. records (apply_firewall (map sample.show_mask addresses) mark);
  clear_firewall = records clear_firewall;
  configure_dns = λ dns search. records (configure_dns (map sample.show_ip dns));
  reset_dns = λ wg. (reset_outcome wg.reset_dns_err, recorded reset_dns wg);
  read_interface_data = λ wg.
      let (r, rest) = next_read wg.reads in
      (r, recorded read_interface_data (record wg { reads = rest }));
}

-- A host with one peer of the given key.
abbrev pub live_host : Option ℕ → Text → Host Text
live_host mark key = record {
  listen_port = 51820;
  private_key = some generated_key;
  fwmark = mark;
  peers = sample.new_peer key ∷ [];
}

abbrev pub switched : List (Result (Host Text)) → ServerConfig → Result SocketAddr × RecordingWg
switched reads server = switch sample recording_ops unasked server (fresh_wg reads)

-- `None` where the switch of `run_switch` is an error, which its `unwrap` refuses.
abbrev log_of : Result SocketAddr × RecordingWg → Option (List WgCall)
log_of (ok addr, wg) = some wg.calls
log_of (err e, wg) = none

abbrev pub run_switch : List (Result (Host Text)) → ServerConfig → Option (List WgCall)
run_switch reads server = log_of (switched reads server)

abbrev pub asserted : (List WgCall → Bool) → Option (List WgCall) → Bool
asserted p none = false
asserted p (some calls) = p calls

abbrev pub index_of : (WgCall → Bool) → List WgCall → Option ℕ
index_of p [] = none
index_of p (c ∷ cs) = if p c then some 0 else map_some suc (index_of p cs)

-- `a < b` of two indices that were found
abbrev pub is_before : Option ℕ → Option ℕ → Bool
is_before (some a) (some b) = ltb a b
is_before _ _ = false

abbrev pub is_create : WgCall → Bool
is_create create_interface = true
is_create _ = false

abbrev pub is_remove : WgCall → Bool
is_remove remove_interface = true
is_remove _ = false

abbrev pub is_configure : WgCall → Bool
is_configure (configure_interface cfg) = true
is_configure _ = false

abbrev pub is_routing : WgCall → Bool
is_routing (configure_peer_routing keys) = true
is_routing _ = false

abbrev pub is_sync : WgCall → Bool
is_sync (sync_split_routes prefixes) = true
is_sync _ = false

abbrev pub syncs : List Text → WgCall → Bool
syncs prefixes (sync_split_routes qs) = same_texts qs prefixes
syncs prefixes _ = false

abbrev pub is_firewall : WgCall → Bool
is_firewall (apply_firewall addresses mark) = true
is_firewall _ = false

abbrev pub firewalls : List Text → Option ℕ → WgCall → Bool
firewalls addresses mark (apply_firewall found mark') =
    same_texts found addresses && same_number mark' mark
firewalls addresses mark _ = false

abbrev pub is_clear : WgCall → Bool
is_clear clear_firewall = true
is_clear _ = false

abbrev pub is_dns : WgCall → Bool
is_dns (configure_dns servers) = true
is_dns _ = false

abbrev pub is_reset : WgCall → Bool
is_reset reset_dns = true
is_reset _ = false

abbrev pub is_read : WgCall → Bool
is_read read_interface_data = true
is_read _ = false

-- What is asserted of the first `ConfigureInterface`
abbrev pub configures : (Configured → Bool) → List WgCall → Bool
configures p [] = false
configures p (configure_interface cfg ∷ cs) = p cfg
configures p (c ∷ cs) = configures p cs
