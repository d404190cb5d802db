-- ===== src/Keys.antt =====
-- daemon/src/keys.rs: keys as base64 text. `generate_private_key` is the text of a random key and
-- enters the daemon as an input (`Moment.generated`).
use wirefinder.Prelude.{◌++◌}
use wirefinder.Text.{Text, lit, trim}
use wirefinder.Result.{Result, ok, ◌>>=◌, map_err}
use wirefinder.External.{External}

module _ (x : External) where
  unfoldable pub public_key : Text → Result Text
  public_key private_key = do
    key ← map_err (λ e. lit "invalid private key: " ++ e) (x.parse_key (trim private_key))
    ok (x.show_key (x.public_key key))
