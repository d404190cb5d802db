-- ===== src/Tests/ConfigRuns.antt =====
-- The tests of daemon/src/config.rs, by name.
use wirefinder.Prelude.{
  Bool, true, false, not, ◌&&◌, ◌==◌, ◌≡◌, refl, Option, none, some, [], ◌∷◌, is_some,
}
use wirefinder.Prelude.Lists.{is_empty, length}
use wirefinder.Text.{Text, lit, equal, trim, trim_start, trim_end, is_whitespace}
use wirefinder.Result.{is_ok}
use wirefinder.Exec.{pure, lift, attempt, raise, ◌>>=◌}
use wirefinder.Keys.{public_key}
use wirefinder.Config.{
  ServerConfig, default, named, find_server, replace_first, upsert_server, remove_server, info,
  detail,
}
use wirefinder.Config.Store.{
  save, load, loaded, tmp_path, naming, write_private, directory, create_parent, sync_parent,
}
use wirefinder.Config.Store.Fs.{
  File, rsplit_dot, stem_of, file_stem, with_extension, shown, put, next_fault, call, outcome,
  settle, touch, opened, open_truncate, take, append_to, write_all, rename, read_to_string,
  read_outcome, read_file,
}
use wirefinder.Tests.Assert.{all, holds, same_texts, same_number}
use wirefinder.Tests.Sample.{sample, generated_key, peer_key}
use wirefinder.Tests.FakeWireguard.{first, same_result, write_only, temp_path}

abbrev pub sample_server : Text → ServerConfig
sample_server name = record {
  name = name;
  private_key = generated_key;
  public_key = peer_key;
  endpoint = lit "vpn.example.com:51820";
  resolved_endpoint = some (lit "198.51.100.10:51820");
  addresses = lit "10.0.0.2/24" ∷ [];
  allowed_ips = lit "0.0.0.0/0" ∷ [];
  listen_port = 51820;
  mtu = none;
  keepalive = some 25;
  preshared_key = none;
  dns = lit "10.0.0.1" ∷ [];
}

abbrev pub of_file : (File → Bool) → Option File → Bool
of_file p none = false
of_file p (some f) = p f

abbrev missing_file_loads_as_empty_default : Bool
missing_file_loads_as_empty_default =
    holds (λ c. is_empty c.servers)
      (load write_only temp_path (record { files = λ name. none; faults = [] })).0

abbrev saved_state_file_is_owner_only_0600 : Bool
saved_state_file_is_owner_only_0600 =
    let (r, d) = save write_only temp_path default (record { files = λ name. none; faults = [] }) in
    is_ok r && of_file (λ f. f.mode == 0o600) (d.files temp_path.file_name)

abbrev save_is_atomic_and_leaves_no_temp_file : Bool
save_is_atomic_and_leaves_no_temp_file =
    let (r, d) = save write_only temp_path default (record { files = λ name. none; faults = [] }) in
    is_ok r && not (is_some (d.files (tmp_path temp_path).file_name))

abbrev upsert_replaces_by_name_rather_than_duplicating : Bool
upsert_replaces_by_name_rather_than_duplicating =
    let (cfg, old) = (upsert_server default (sample_server (lit "nexus"))) in
    let (cfg2, found) =
      upsert_server cfg
        (record (sample_server (lit "nexus")) { endpoint = lit "new.example.com:51820" }) in
    all (
      not old
      ∷ found
      ∷ (length cfg2.servers == 1)
      ∷ first (λ (s : ServerConfig). equal s.endpoint (lit "new.example.com:51820")) cfg2.servers
      ∷ [])

abbrev remove_server_reports_whether_it_existed : Bool
remove_server_reports_whether_it_existed =
    let (cfg, removed) =
      remove_server (upsert_server default (sample_server (lit "nexus"))).0 (lit "nexus") in
    let (cfg2, again) = remove_server cfg (lit "nexus") in
    all (removed ∷ not again ∷ is_empty cfg2.servers ∷ [])

abbrev info_exposes_the_derived_public_key_never_the_private_one : Bool
info_exposes_the_derived_public_key_never_the_private_one =
    let server = sample_server (lit "nexus") in
    holds
      (λ i. all (
        same_result (public_key sample server.private_key) i.public_key
        ∷ not (equal i.public_key server.private_key)
        ∷ i.active
        ∷ same_texts i.addresses server.addresses
        ∷ []))
      (info sample server true)

abbrev detail_maps_kernel_assigned_port_to_none : Bool
detail_maps_kernel_assigned_port_to_none = all (
    same_number (detail (record (sample_server (lit "nexus")) { listen_port = 0 })).listen_port none
    ∷ same_number
        (detail (record (sample_server (lit "nexus")) { listen_port = 51820 })).listen_port
        (some 51820)
    ∷ [])

-- Every test passes.
config_runs_pass :
    all (
      missing_file_loads_as_empty_default ∷ saved_state_file_is_owner_only_0600
      ∷ save_is_atomic_and_leaves_no_temp_file ∷ upsert_replaces_by_name_rather_than_duplicating
      ∷ remove_server_reports_whether_it_existed
      ∷ info_exposes_the_derived_public_key_never_the_private_one
      ∷ detail_maps_kernel_assigned_port_to_none ∷ [])
    ≡ true
unfolding lit equal trim trim_start trim_end is_whitespace pure lift attempt raise ◌>>=◌ naming
    write_private directory create_parent sync_parent save rsplit_dot stem_of file_stem
    with_extension shown put next_fault call outcome settle touch opened open_truncate take
    append_to write_all rename load loaded read_to_string read_outcome read_file named find_server
    replace_first upsert_server remove_server info detail public_key
config_runs_pass = refl
