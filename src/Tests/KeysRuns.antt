-- ===== src/Tests/KeysRuns.antt =====
-- The tests of daemon/src/keys.rs at one generated key, by name.
use wirefinder.Prelude.{Bool, true, not, ◌&&◌, ◌≡◌, refl, [], ◌∷◌, ◌++◌}
use wirefinder.Text.{lit, equal, trim, trim_start, trim_end, is_whitespace, contains, starts_with}
use wirefinder.Result.{is_ok}
use wirefinder.Keys.{public_key}
use wirefinder.Tests.Assert.{all, holds, fails_on}
use wirefinder.Tests.FakeWireguard.{same_result}
use wirefinder.Tests.Sample.{sample, generated_key}

abbrev generated_key_yields_a_derivable_public_key : Bool
generated_key_yields_a_derivable_public_key =
    holds
      (λ pub_key.
        not (equal generated_key pub_key) && same_result (public_key sample generated_key) pub_key)
      (public_key sample generated_key)

abbrev surrounding_whitespace_is_tolerated : Bool
surrounding_whitespace_is_tolerated =
    is_ok (public_key sample (lit "  " ++ (generated_key ++ lit "\n")))

abbrev garbage_is_rejected_with_a_named_error : Bool
garbage_is_rejected_with_a_named_error =
    fails_on (public_key sample (lit "not-a-key")) (lit "private key")

-- Every test passes.
keys_runs_pass :
    all (
      generated_key_yields_a_derivable_public_key ∷ surrounding_whitespace_is_tolerated
      ∷ garbage_is_rejected_with_a_named_error ∷ [])
    ≡ true
unfolding lit equal trim trim_start trim_end is_whitespace contains starts_with public_key
keys_runs_pass = refl
