-- ===== src/Cli.antt =====
-- cli/src/main.rs: the arguments as a request, the responses as text, and the exit codes.
pub mod Requests
pub mod Wire
pub mod Humanize
use wirefinder.Cli.Humanize.{humanize}
use wirefinder.Prelude.{
  ℕ, zero, suc, ◌-◌, Bool, true, false, not, ◌==◌, leb, ltb, Option, none, some, List, [], ◌∷◌,
  ◌++◌, map, unwrap_or, map_some, if◌then◌else◌,
}
use wirefinder.Prelude.Lists.{is_empty, length}
use wirefinder.Text.{Text, lit, equal, trim, split, join, show_ℕ, utf8_len}
use wirefinder.Result.{Result, ok, err, ◌>>=◌, map_err, map_ok, ok_or}
use wirefinder.Proto.{
  ServerSpec, Request, Response, ConnState, alive, connecting, stale, never, PeerStatus, ServerInfo,
  ServerDetail, InterfaceStatus,
}

abbrev both_families : List Text
both_families = lit "0.0.0.0/0" ∷ lit "::/0" ∷ []

-- One trailing argument is a list of allowed IPs; none or several are the default.
unfoldable pub add_allowed_ips : List Text → List Text
add_allowed_ips [] = both_families
add_allowed_ips (csv ∷ []) = map trim (split b',' csv)
add_allowed_ips (_ ∷ _ ∷ _) = both_families

unfoldable pub add_spec : Text → Text → Text → Text → List Text → ServerSpec
unfolding add_allowed_ips
add_spec name public_key endpoint address rest = record {
  name = name;
  private_key = none;
  public_key = public_key;
  endpoint = endpoint;
  addresses = address ∷ [];
  allowed_ips = add_allowed_ips rest;
  listen_port = none;
  mtu = none;
  keepalive = some 25;
  preshared_key = none;
  dns = [];
}

unfoldable pub parse_request : List Text → Option Request
parse_request [] = none
parse_request (cmd ∷ []) =
    if equal cmd (lit "info")
    then some Request.status
    else if equal cmd (lit "servers")
    then some (Request.list_servers none)
    else if equal cmd (lit "disconnect")
    then some Request.disconnect
    else none
parse_request (cmd ∷ arg ∷ []) =
    if equal cmd (lit "servers")
    then some (Request.list_servers (some arg))
    else if equal cmd (lit "switch")
    then some (Request.switch_server arg)
    else if equal cmd (lit "remove")
    then some (Request.remove_server arg)
    else if equal cmd (lit "get")
    then some (Request.get_server arg)
    else none
parse_request (cmd ∷ name ∷ public_key ∷ endpoint ∷ address ∷ rest) =
    if equal cmd (lit "add")
    then some (Request.add_server (add_spec name public_key endpoint address rest))
    else none
parse_request _ = none

-- `read` is `std::fs::read_to_string`; `stem` is `Path::file_stem`, as UTF-8.
module _ (read : Text → Result Text) (stem : Text → Option Text) where
  unfoldable pub file_stem : Text → Text
  file_stem path = unwrap_or (stem path) (lit "imported")

  unfoldable pub import_request : Text → Option Text → Result Request
  import_request file name = do
    conf ← map_err (λ e. file ++ (lit ": " ++ e)) (read file)
    ok (Request.import_server (unwrap_or name (file_stem file)) conf)

  -- The error of a usage error is empty.
  unfoldable pub request_of : List Text → Result Request
  request_of (cmd ∷ file ∷ []) =
      if equal cmd (lit "import")
      then import_request file none
      else ok_or (parse_request (cmd ∷ file ∷ [])) []
  request_of (cmd ∷ file ∷ name ∷ []) =
      if equal cmd (lit "import")
      then import_request file (some name)
      else ok_or (parse_request (cmd ∷ file ∷ name ∷ [])) []
  request_of args = ok_or (parse_request args) []

-- `println!`
abbrev pub line : Text → Text
line t = t ++ (b'\n' ∷ [])

abbrev when_some {ℓ} : {A : Type ℓ} → Option A → (A → Text) → Text
when_some none f = []
when_some (some a) f = f a

unfoldable pub handshake_status : ConnState → ℕ → Text
handshake_status alive age = lit "ALIVE ✓, " ++ (show_ℕ age ++ lit "s ago")
handshake_status connecting age = lit "connecting…"
handshake_status stale age = lit "STALE, " ++ (show_ℕ age ++ lit "s ago")
handshake_status never age = lit "never connected"

-- `&t[..n.min(t.len())]`: the first `n` bytes, which is a panic inside a character.
unfoldable pub prefix_bytes : ℕ → Text → Result Text
prefix_bytes n [] = ok []
prefix_bytes n (c ∷ cs) =
    let rest = map_ok (λ t. c ∷ t) (prefix_bytes (n - utf8_len c) cs) in
    if n == 0
    then ok []
    else if leb (utf8_len c) n
    then rest
    else err (lit "panic: the index is not a char boundary")

unfoldable pub print_peer : PeerStatus → Result Text
unfolding handshake_status
print_peer p = do
  start ← prefix_bytes 12 p.public_key
  ok (
      line (lit "peer      " ++ (start ++ lit "…"))
      ++ (line (lit "endpoint  " ++ unwrap_or p.endpoint (lit "-"))
          ++ (line (lit "allowed   " ++ join (lit ", ") p.allowed_ips)
              ++ (line (
                    lit "handshake " ++ handshake_status p.state (unwrap_or p.handshake_age_secs 0))
                  ++ (line (
                        lit "traffic   ↓ "
                        ++ (humanize p.rx_bytes ++ (lit "  ↑ " ++ humanize p.tx_bytes)))
                      ++ line [])))))

spaces : ℕ → Text
spaces zero = []
spaces (suc n) = b' ' ∷ spaces n

-- `{:<12}`
pad : ℕ → Text → Text
unfolding spaces
pad n t = t ++ spaces (n - length t)

unfoldable pub print_server : ServerInfo → Text
unfolding pad
print_server s =
    line (
      (if s.active then lit "●" else lit " ")
      ++ (lit " " ++ (pad 12 s.name ++ (lit " " ++ s.endpoint))))
    ++ (line (lit "    address  " ++ join (lit ", ") s.addresses)
        ++ line (lit "    pubkey   " ++ s.public_key))

print_each : List ServerInfo → Text
print_each [] = []
print_each (s ∷ rest) = print_server s ++ print_each rest

-- `debug` is `{:?}` of a text.
unfoldable pub print_servers : (Text → Text) → List ServerInfo → Option Text → Text
unfolding print_each
print_servers debug [] (some q) = line (lit "no servers match " ++ debug q)
print_servers debug [] none =
    line (lit "no servers configured — add one with `wirefinder add …` or `import`")
print_servers debug (s ∷ rest) filter = line (lit "servers:") ++ print_each (s ∷ rest)

unfoldable pub print_detail : ServerDetail → Text
print_detail d =
    line d.name
    ++ (line (lit "    peer pubkey  " ++ d.public_key)
        ++ (line (lit "    endpoint     " ++ d.endpoint)
            ++ (line (lit "    addresses    " ++ join (lit ", ") d.addresses)
                ++ (line (lit "    allowed ips  " ++ join (lit ", ") d.allowed_ips)
                    ++ (when_some d.listen_port
                          (λ port. line (lit "    listen port  " ++ show_ℕ port))
                        ++ (when_some d.mtu (λ mtu. line (lit "    mtu          " ++ show_ℕ mtu))
                            ++ (when_some d.keepalive
                                  (λ ka. line (lit "    keepalive    " ++ (show_ℕ ka ++ lit "s")))
                                ++ ((if is_empty d.dns
                                      then []
                                      else line (lit "    dns          " ++ join (lit ", ") d.dns))
                                    ++ (if d.has_preshared_key
                                        then line (lit "    preshared    (set)")
                                        else [])))))))))

print_lines : List Text → Text
print_lines [] = []
print_lines (t ∷ rest) = line t ++ print_lines rest

unfoldable pub print_usage : Text
unfolding print_lines
print_usage = print_lines (
    lit "usage:"
    ∷ lit "  wirefinder add <name> <pubkey> <endpoint> <address> [allowed_ips]"
    ∷ lit "                                                  add a server (generates a key)"
    ∷ lit "  wirefinder import <file.conf> [name]            import a wg-quick config"
    ∷ lit "  wirefinder remove <name>                        forget a server"
    ∷ lit "  wirefinder servers [query]                      list servers (optionally filtered)"
    ∷ lit "  wirefinder get <name>                           show a server's editable detail"
    ∷ lit "  wirefinder switch <name>                        connect to a server"
    ∷ lit "  wirefinder disconnect                           tear the tunnel down"
    ∷ lit "  wirefinder info                                 live tunnel status"
    ∷ [])

-- What the process leaves: its two output streams and its exit code.
pub record Outcome : Type 0 where
  pub out : Text
  pub error : Text
  pub code : ℕ

abbrev pub prints : Text → Outcome
prints t = record { out = t; error = []; code = 0 }

abbrev pub fails : Text → ℕ → Outcome
fails e code = record { out = []; error = line e; code = code }

-- The code of a process that panicked.
abbrev printed : Text → (Text → Outcome) → Result Text → Outcome
printed out rest (ok text) = rest text
printed out rest (err e) = record { out = out; error = line e; code = 101 }

module _ (debug : Text → Text) where
  -- What is printed before a panic stays printed.
  print_peers : Text → List PeerStatus → Outcome
  print_peers out [] = prints out
  print_peers out (p ∷ ps) = printed out (λ more. print_peers (out ++ more) ps) (print_peer p)

  unfoldable pub render : Response → Option Text → Outcome
  unfolding print_peers
  render (Response.status s) filter =
      print_peers
        (line (line (lit "interface " ++ (s.name ++ (lit "  port " ++ show_ℕ s.listen_port)))))
        s.peers
  render (Response.servers servers) filter = prints (print_servers debug servers filter)
  render (Response.server_detail d) filter = prints (print_detail d)
  render (Response.switched name) filter = prints (line (lit "switched to " ++ name))
  render Response.disconnected filter = prints (line (lit "disconnected — interface is down"))
  render (Response.error e) filter = fails (lit "daemon error: " ++ e) 1

  abbrev pub filter_of : Request → Option Text
  filter_of (Request.list_servers query) = query
  filter_of _ = none

  -- An error of the transport ends `main` by its `Result`: its debug form, and code 1.
  abbrev pub rendered : Result Response → Option Text → Outcome
  rendered (ok response) filter = render response filter
  rendered (err e) filter = fails (lit "Error: " ++ debug e) 1

  abbrev pub run : (Request → Result Response) → Result Request → Outcome
  run ask (ok req) = rendered (ask req) (filter_of req)
  run ask (err []) = record { out = print_usage; error = []; code = 2 }
  run ask (err (c ∷ e)) = fails (c ∷ e) 2

  -- `ask` is `request`.
  unfoldable pub main :
      (Text → Result Text)
      → (Text → Option Text)
      → (Request → Result Response)
      → List Text
      → Outcome
  main read stem ask args = run ask (request_of read stem args)
