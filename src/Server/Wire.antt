-- ===== src/Server/Wire.antt =====
-- The two ends of the socket together: a request that goes over the wire is handled as it was
-- asked.
use wirefinder.Prelude.{
  ℕ, ◌==◌, ◌+◌, ◌-◌, ◌<◌, true, not, Bool, [], ◌∷◌, ◌++◌, ◌≡◌, refl, ap, arith,
}
use wirefinder.Prelude.Lists.{any}
use wirefinder.Text.{Text, lit, utf8_len, byte_len}
use wirefinder.Result.{Result, ok, err}
use wirefinder.External.{External}
use wirefinder.Proto.{Request, Response}
use wirefinder.Config.Store.{Codec}
use wirefinder.Config.Store.Fs.{FilePath}
use wirefinder.Wireguard.{Wireguard}
use wirefinder.Daemon.State.{Moment, Daemon}
use wirefinder.Daemon.Handle.{handle}
use wirefinder.Server.{
  Json, read_line, read_capped, max_request_bytes, dispatch, handle_client, request,
}

-- The text is one line.
abbrev pub is_line : Text → Bool
is_line t = not (any (λ c. c == b'\n') t)

read_line-append :
    (t rest : Text) → is_line t ≡ true → read_line (t ++ (b'\n' ∷ rest)) ≡ t ++ (b'\n' ∷ [])
unfolding read_line
read_line-append [] rest h = refl
read_line-append (c ∷ t) rest h = ground (arith, read_line-append t rest)

byte_len-line : (t : Text) → byte_len (t ++ (b'\n' ∷ [])) ≡ byte_len t + 1
unfolding byte_len
byte_len-line [] = refl
byte_len-line (c ∷ t) = ground (arith, byte_len-line t)

-- A line below the cap is read as a whole.
read_capped-line :
    (n : ℕ) (t : Text)
    → is_line t ≡ true
    → byte_len t < n
    → read_capped n (t ++ (b'\n' ∷ [])) ≡ ok (t ++ (b'\n' ∷ []))
unfolding read_capped byte_len
read_capped-line n [] h small = ground arith
read_capped-line n (c ∷ t) h small =
    let rest : read_capped (n - utf8_len c) (t ++ (b'\n' ∷ [])) ≡ ok (t ++ (b'\n' ∷ [])) =
      read_capped-line (n - utf8_len c) t (ground arith) (omega arith) in
    rw rest (ground arith)

module _ (json : Json) (x : External) (codec : Codec) (path : FilePath) {S : Type 0}
    (wg : Wireguard S) (m : Moment) (d : Daemon S) where
  -- The client's side of a connection that this daemon serves.
  abbrev pub exchange : Text → Result Text
  exchange sent =
      (handle_client json x codec path wg m (record { received = ok sent; sent = ok tt }) d).0

  -- A request whose line is below the cap is handled, and its response is written.
  handle_client-line :
      (req : Request) (text back : Text)
      → is_line text ≡ true
      → byte_len text < max_request_bytes
      → json.decode_request (text ++ lit "\n") ≡ ok req
      → json.encode_response (handle x codec path wg m req d).0 ≡ ok back
      → handle_client json x codec path wg m
          (record { received = ok (text ++ lit "\n"); sent = ok tt })
          d
        ≡ (ok (back ++ lit "\n"), (handle x codec path wg m req d).1)
  unfolding handle_client dispatch lit
  handle_client-line req text back line small decoded e2 =
      rw (read_capped-line max_request_bytes text line small, decoded, e2) refl

  -- A request of a client and the daemon that serves it, if the codes of the request and of its response are
  -- single lines that are read back as they were written, and the request is below the cap: the
  -- client gets the daemon's response to that request, and the daemon is as that request leaves it.
  pub request-handle_client :
      (req : Request) (text back : Text)
      → json.encode_request req ≡ ok text
      → is_line text ≡ true
      → byte_len text < max_request_bytes
      → json.decode_request (text ++ lit "\n") ≡ ok req
      → json.encode_response (handle x codec path wg m req d).0 ≡ ok back
      → is_line back ≡ true
      → json.decode_response (back ++ lit "\n") ≡ ok (handle x codec path wg m req d).0
      → (request json exchange req ≡ ok (handle x codec path wg m req d).0)
        × ((handle_client json x codec path wg m
              (record { received = ok (text ++ lit "\n"); sent = ok tt })
              d).1
            ≡ (handle x codec path wg m req d).1)
  unfolding request lit
  request-handle_client req text back e line small decoded e2 line2 decoded2 =
      let served = handle_client-line req text back line small decoded e2 in
      let told : exchange (text ++ lit "\n") ≡ ok (back ++ lit "\n") =
        ap (λ (p : Result Text × Daemon S). p.0) served in
      (
        rw (e, told, read_line-append back [] line2, decoded2) refl,
        ap (λ (p : Result Text × Daemon S). p.1) served,
      )

  -- A line that is no request is answered with an error, and changes nothing.
  pub dispatch_malformed :
      (line : Text) {e : Text}
      → json.decode_request line ≡ err e
      → dispatch json x codec path wg m line d ≡ (Response.error (lit "bad request: " ++ e), d)
  unfolding dispatch
  dispatch_malformed line h = rw h refl
