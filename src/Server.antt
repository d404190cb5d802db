-- ===== src/Server.antt =====
-- daemon/src/server.rs and `request` of proto/src/lib.rs: the two ends of the control socket, one
-- line of JSON each way.
pub mod Wire
pub mod Bind
use wirefinder.Prelude.{ℕ, ◌*◌, ◌-◌, ◌==◌, leb, List, [], ◌∷◌, ◌++◌, if◌then◌else◌}
use wirefinder.Text.{Text, lit, utf8_len}
use wirefinder.Result.{Result, ok, err, map_ok, ◌>>=◌}
use wirefinder.External.{External}
use wirefinder.Proto.{Request, Response}
use wirefinder.Config.Store.{Codec}
use wirefinder.Config.Store.Fs.{FilePath}
use wirefinder.Wireguard.{Wireguard}
use wirefinder.Daemon.State.{Moment, Daemon}
use wirefinder.Daemon.Handle.{handle}

-- `serde_json` at the two message types
pub record Json : Type 0 where
  pub encode_request : Request → Result Text
  pub decode_request : Text → Result Request
  pub encode_response : Response → Result Text
  pub decode_response : Text → Result Response

abbrev pub max_request_bytes : ℕ
max_request_bytes = 64 * 1024

-- `read_line`: up to the line feed, which stays, or to the end of the stream.
unfoldable pub read_line : Text → Text
read_line [] = []
read_line (c ∷ cs) = if c == b'\n' then c ∷ [] else c ∷ read_line cs

-- `read_line` behind `take`: up to the line feed, or to the end of the stream, or to the cap. A
-- character that the cap cuts makes the line no UTF-8.
unfoldable pub read_capped : ℕ → Text → Result Text
read_capped n [] = ok []
read_capped n (c ∷ cs) =
    let rest = map_ok (λ t. c ∷ t) (read_capped (n - utf8_len c) cs) in
    if leb (utf8_len c) n
    then (if c == b'\n' then ok (c ∷ []) else rest)
    else if n == 0
    then ok []
    else err (lit "stream did not contain valid UTF-8")

-- One connection: what the client sends until it stops or the timeout, or an error; and whether
-- the answer can be written.
pub record Connection : Type 0 where
  pub received : Result Text
  pub sent : Result (Unit {0})

module _ (json : Json) (x : External) (codec : Codec) (path : FilePath) {S : Type 0}
    (wg : Wireguard S) where
  abbrev dispatched : Moment → Result Request → Daemon S → Response × Daemon S
  dispatched m (ok req) d = handle x codec path wg m req d
  dispatched m (err e) d = (Response.error (lit "bad request: " ++ e), d)

  unfoldable pub dispatch : Moment → Text → Daemon S → Response × Daemon S
  dispatch m line d = dispatched m (json.decode_request line) d

  abbrev answer : Connection → Response × Daemon S → Result Text × Daemon S
  answer c (response, d) =
      ((do text ← json.encode_response response; _ ← c.sent; ok (text ++ lit "\n")), d)

  abbrev served : Moment → Connection → Result Text → Daemon S → Result Text × Daemon S
  served m c (err e) d = (err e, d)
  served m c (ok line) d = answer c (dispatch m line d)

  -- The text is what was written to the client.
  unfoldable pub handle_client : Moment → Connection → Daemon S → Result Text × Daemon S
  handle_client m c d = served m c (c.received >>= read_capped max_request_bytes) d

  -- `serve`, for the connections of one run; an error of a client is only logged.
  unfoldable pub serve : List (Moment × Connection) → Daemon S → Daemon S
  serve [] d = d
  serve ((m, c) ∷ rest) d = serve rest (handle_client m c d).1

-- `request`, over what the other end sends back for what it is sent.
unfoldable pub request : Json → (Text → Result Text) → Request → Result Response
request json exchange req = do
  text ← json.encode_request req
  back ← exchange (text ++ lit "\n")
  json.decode_response (read_line back)
