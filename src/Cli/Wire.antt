-- ===== src/Cli/Wire.antt =====
-- The command line, the socket and the daemon together: cli/src/main.rs, `request` of
-- proto/src/lib.rs, daemon/src/server.rs and daemon/src/daemon.rs.
use wirefinder.Prelude.{◌<◌, true, List, ◌++◌, ◌≡◌, refl, Option}
use wirefinder.Text.{Text, lit, byte_len}
use wirefinder.Result.{Result, ok}
use wirefinder.External.{External}
use wirefinder.Proto.{Request}
use wirefinder.Config.Store.{Codec}
use wirefinder.Config.Store.Fs.{FilePath}
use wirefinder.Wireguard.{Wireguard}
use wirefinder.Daemon.State.{Moment, Daemon}
use wirefinder.Daemon.Handle.{handle}
use wirefinder.Server.{Json, max_request_bytes, handle_client, request}
use wirefinder.Server.Wire.{is_line, exchange, request-handle_client}
use wirefinder.Cli.{main, request_of, render, filter_of}

module _ (debug : Text → Text) (read : Text → Result Text) (stem : Text → Option Text) (json : Json)
    (x : External) (codec : Codec) (path : FilePath) {S : Type 0} (wg : Wireguard S) (m : Moment)
    (d : Daemon S) where
  -- A command whose arguments are a request, and a daemon that serves it, if the codes of the request and of its
  -- response are single lines that are read back as they were written, and the bytes of the request are below the cap:
  -- the command prints, and ends with the code of, the daemon's response to that request, and the daemon is as that
  -- request leaves it.
  pub main-handle_client :
      (args : List Text) (req : Request) (text back : Text)
      → request_of read stem args ≡ ok req
      → json.encode_request req ≡ ok text
      → is_line text ≡ true
      → byte_len text < max_request_bytes
      → json.decode_request (text ++ lit "\n") ≡ ok req
      → json.encode_response (handle x codec path wg m req d).0 ≡ ok back
      → is_line back ≡ true
      → json.decode_response (back ++ lit "\n") ≡ ok (handle x codec path wg m req d).0
      → (main debug read stem (request json (exchange json x codec path wg m d)) args
          ≡ render debug (handle x codec path wg m req d).0 (filter_of debug req))
        × ((handle_client json x codec path wg m
              (record { received = ok (text ++ lit "\n"); sent = ok tt })
              d).1
            ≡ (handle x codec path wg m req d).1)
  unfolding main
  main-handle_client args req text back a e l s u e2 l2 u2 =
      let (asked, left) =
        request-handle_client json x codec path wg m d req text back e l s u e2 l2 u2 in
      (rw (a, asked) refl, left)
