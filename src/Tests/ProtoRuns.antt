-- ===== src/Tests/ProtoRuns.antt =====
-- The test of the list filter of proto/src/lib.rs.
use wirefinder.Prelude.{Bool, true, false, not, ◌≡◌, refl, none, [], ◌∷◌}
use wirefinder.Text.{
  lit, equal, trim, trim_start, trim_end, is_whitespace, contains, starts_with, to_ascii_lowercase,
}
use wirefinder.Proto.{ServerInfo, matches}
use wirefinder.Tests.Assert.{all}
use wirefinder.Tests.Sample.{sample}

abbrev nyc : ServerInfo
nyc = record {
  name = lit "Mullvad NYC";
  endpoint = lit "nyc.mullvad.net:51820";
  addresses = lit "10.64.0.2/32" ∷ lit "fc00:bbbb::2/128" ∷ [];
  public_key = lit "pubkey";
  active = false;
  state = none;
}

abbrev server_info_matches_name_endpoint_and_address_case_insensitively : Bool
server_info_matches_name_endpoint_and_address_case_insensitively = all (
    matches sample.to_lowercase nyc (lit "")
    ∷ matches sample.to_lowercase nyc (lit "   ")
    ∷ matches sample.to_lowercase nyc (lit "mullvad")
    ∷ matches sample.to_lowercase nyc (lit "NYC")
    ∷ matches sample.to_lowercase nyc (lit ".net:518")
    ∷ matches sample.to_lowercase nyc (lit "10.64")
    ∷ matches sample.to_lowercase nyc (lit "fc00:BBBB")
    ∷ matches sample.to_lowercase nyc (lit "  mullvad  ")
    ∷ not (matches sample.to_lowercase nyc (lit "proton"))
    ∷ not (matches sample.to_lowercase nyc (lit "pubkey"))
    ∷ [])

-- Every test passes.
proto_runs_pass : all (server_info_matches_name_endpoint_and_address_case_insensitively ∷ []) ≡ true
unfolding lit equal trim trim_start trim_end is_whitespace contains starts_with to_ascii_lowercase
    matches
proto_runs_pass = refl
