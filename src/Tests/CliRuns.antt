-- ===== src/Tests/CliRuns.antt =====
-- The tests of cli/src/main.rs, by name.
use wirefinder.Prelude.{
  Bool, true, false, not, ◌&&◌, ◌≡◌, refl, Option, none, some, [], ◌∷◌, is_some,
}
use wirefinder.Text.{Text, lit, equal, trim, trim_start, trim_end, is_whitespace, split}
use wirefinder.Result.{Result, ok, err}
use wirefinder.Proto.{Request, ServerSpec}
use wirefinder.Cli.{parse_request, add_spec, add_allowed_ips, import_request, file_stem}
use wirefinder.Tests.Assert.{all, same_text, same_texts, is_err}

abbrev is_status : Option Request → Bool
is_status (some Request.status) = true
is_status _ = false

abbrev is_disconnect : Option Request → Bool
is_disconnect (some Request.disconnect) = true
is_disconnect _ = false

abbrev asks_list : Option Text → Option Request → Bool
asks_list query (some (Request.list_servers q)) = same_text q query
asks_list query _ = false

abbrev switches_to : Text → Option Request → Bool
switches_to name (some (Request.switch_server n)) = equal n name
switches_to name _ = false

abbrev removes : Text → Option Request → Bool
removes name (some (Request.remove_server n)) = equal n name
removes name _ = false

abbrev adds : (ServerSpec → Bool) → Option Request → Bool
adds p (some (Request.add_server s)) = p s
adds p _ = false

abbrev imports : Text → Text → Result Request → Bool
imports name conf (ok (Request.import_server n c)) = equal n name && equal c conf
imports name conf _ = false

abbrev parses_simple_commands : Bool
parses_simple_commands = all (
    is_status (parse_request (lit "info" ∷ []))
    ∷ asks_list none (parse_request (lit "servers" ∷ []))
    ∷ asks_list (some (lit "nyc")) (parse_request (lit "servers" ∷ lit "nyc" ∷ []))
    ∷ is_disconnect (parse_request (lit "disconnect" ∷ []))
    ∷ switches_to (lit "nexus") (parse_request (lit "switch" ∷ lit "nexus" ∷ []))
    ∷ removes (lit "decoy") (parse_request (lit "remove" ∷ lit "decoy" ∷ []))
    ∷ [])

abbrev removed_commands_are_no_longer_recognized : Bool
removed_commands_are_no_longer_recognized = all (
    not (is_some (parse_request (lit "connect" ∷ [])))
    ∷ not (is_some (parse_request (lit "setup" ∷ [])))
    ∷ not (is_some (parse_request (lit "configure" ∷ lit "51820" ∷ [])))
    ∷ [])

abbrev add_generates_a_key_takes_an_address_and_splits_allowed_ips : Bool
add_generates_a_key_takes_an_address_and_splits_allowed_ips = all (
    adds
      (λ s. all (
        not (is_some s.private_key)
        ∷ same_texts s.addresses (lit "10.0.0.2/24" ∷ [])
        ∷ same_texts s.allowed_ips (lit "0.0.0.0/0" ∷ lit "::/0" ∷ [])
        ∷ []))
      (parse_request
        (lit "add" ∷ lit "edge" ∷ lit "PUBKEY" ∷ lit "h:51820" ∷ lit "10.0.0.2/24" ∷ []))
    ∷ adds (λ s. same_texts s.allowed_ips (lit "10.0.0.0/24" ∷ lit "192.168.1.0/24" ∷ []))
        (parse_request (
          lit "add"
          ∷ lit "edge"
          ∷ lit "PUBKEY"
          ∷ lit "h:51820"
          ∷ lit "10.0.0.2/24"
          ∷ lit "10.0.0.0/24,192.168.1.0/24"
          ∷ []))
    ∷ [])

abbrev unknown_and_malformed_commands_are_rejected : Bool
unknown_and_malformed_commands_are_rejected = all (
    not (is_some (parse_request (lit "bogus" ∷ [])))
    ∷ not (is_some (parse_request (lit "switch" ∷ [])))
    ∷ not (is_some (parse_request (lit "add" ∷ lit "edge" ∷ lit "PUBKEY" ∷ lit "h:51820" ∷ [])))
    ∷ [])

abbrev import_reads_a_file_and_defaults_the_name_to_the_stem : Bool
import_reads_a_file_and_defaults_the_name_to_the_stem =
    let read = λ (path : Text). ok (lit "[Interface]\n") in
    let stem = λ (path : Text). some (lit "mullvad-nyc") in
    all (
      imports (lit "mullvad-nyc") (lit "[Interface]\n")
        (import_request read stem (lit "mullvad-nyc.conf") none)
      ∷ imports (lit "work") (lit "[Interface]\n")
          (import_request read stem (lit "mullvad-nyc.conf") (some (lit "work")))
      ∷ [])

abbrev import_of_a_missing_file_errors : Bool
import_of_a_missing_file_errors = is_err (
    import_request (λ path. err (lit "No such file or directory")) (λ path. some (lit "file"))
      (lit "/no/such/file.conf") none)

-- Every test passes.
cli_runs_pass :
    all (
      parses_simple_commands ∷ removed_commands_are_no_longer_recognized
      ∷ add_generates_a_key_takes_an_address_and_splits_allowed_ips
      ∷ unknown_and_malformed_commands_are_rejected
      ∷ import_reads_a_file_and_defaults_the_name_to_the_stem ∷ import_of_a_missing_file_errors
      ∷ [])
    ≡ true
unfolding lit equal trim trim_start trim_end is_whitespace split parse_request add_spec
    add_allowed_ips import_request file_stem
cli_runs_pass = refl
