-- ===== src/Daemon/Secrets.antt =====
-- What the responses of daemon/src/daemon.rs can tell of the stored secrets.
use wirefinder.Prelude.{
  not, ◌==◌, is_some, if◌then◌else◌, Option, none, some, List, [], ◌∷◌, map, map_some, and_then,
  ◌++◌, Bool, ◌≡◌, refl, ap, sym, ◌∙◌, false, Bool-cases, inl, inr,
}
use wirefinder.Text.{Text}
use wirefinder.Text.{equal, lit}
use wirefinder.Result.{Result, ok, err, Result-cases, to_option, ok_or, map_ok}
use wirefinder.External.{External}
use wirefinder.Keys
use wirefinder.Proto.{Request, Response, ServerInfo, InterfaceStatus}
use wirefinder.Config.{ServerConfig, detail, named, find_server, info}
use wirefinder.Config.Store.{Codec}
use wirefinder.Config.Store.Fs.{FilePath}
use wirefinder.Wireguard.{Wireguard, LiveInterface}
use wirefinder.Prelude.Lists.{find}
use wirefinder.Daemon.State.{Moment, Daemon, is_connecting, handshake_age}
use wirefinder.Daemon.Servers.{get_server, unknown}
use wirefinder.Daemon.Status.{status_of, peer_age, listed, list_one, list_servers, read_status}
use wirefinder.Daemon.Handle.{handle, reply, status_response, filtered}

module _ (x : External) where
  -- The servers differ in their secrets and cached endpoints only: their private keys have one public
  -- key, and either both or neither have a preshared key.
  pub record IsAlike (s t : ServerConfig) : Type 0 where
    pub name : s.name ≡ t.name
    pub public_key : s.public_key ≡ t.public_key
    pub endpoint : s.endpoint ≡ t.endpoint
    pub addresses : s.addresses ≡ t.addresses
    pub allowed_ips : s.allowed_ips ≡ t.allowed_ips
    pub listen_port : s.listen_port ≡ t.listen_port
    pub mtu : s.mtu ≡ t.mtu
    pub keepalive : s.keepalive ≡ t.keepalive
    pub has_preshared_key : is_some s.preshared_key ≡ is_some t.preshared_key
    pub dns : s.dns ≡ t.dns
    pub same_key : Keys.public_key x s.private_key ≡ Keys.public_key x t.private_key

  abbrev pub AreAlike : List ServerConfig → List ServerConfig → Type 0
  AreAlike [] [] = Unit
  AreAlike (s ∷ ss) (t ∷ ts) = IsAlike s t × AreAlike ss ts
  AreAlike _ _ = ⊥

  -- The entry of a server in the list, by its name, endpoint, addresses and derived key.
  entry : Text → Text → List Text → Result Text → ServerInfo
  entry name endpoint addresses (ok key) = record {
    name = name;
    endpoint = endpoint;
    addresses = addresses;
    public_key = key;
    active = false;
    state = none;
  }
  entry name endpoint addresses (err e) = record {
    name = name;
    endpoint = endpoint;
    addresses = addresses;
    public_key = lit "(unavailable: " ++ (e ++ lit ")");
    active = false;
    state = none;
  }

  listed-entry :
      (s : ServerConfig)
      → listed x s ≡ entry s.name s.endpoint s.addresses (Keys.public_key x s.private_key)
  unfolding listed info entry
  listed-entry s = elim (Result-cases (Keys.public_key x s.private_key)) [
    | inl (k, e) ↦ rw e refl
    | inr (e, bad) ↦ rw bad refl
  ]

  detail_alike : (s t : ServerConfig) → IsAlike s t → detail s ≡ detail t
  unfolding detail
  detail_alike s t a = λ i. record {
    name = a.name i;
    public_key = a.public_key i;
    endpoint = a.endpoint i;
    addresses = a.addresses i;
    allowed_ips = a.allowed_ips i;
    listen_port = if not (a.listen_port i == 0) then some (a.listen_port i) else none;
    mtu = a.mtu i;
    keepalive = a.keepalive i;
    has_preshared_key = a.has_preshared_key i;
    dns = a.dns i;
  }

  listed_alike : (s t : ServerConfig) → IsAlike s t → listed x s ≡ listed x t
  unfolding detail
  listed_alike s t a =
      listed-entry s
      ∙ (λ i. entry (a.name i) (a.endpoint i) (a.addresses i) (a.same_key i))
      ∙ sym (listed-entry t)

  peer_age_alike :
      (m : Moment) (live : Option LiveInterface) (s t : ServerConfig)
      → IsAlike s t
      → peer_age m live s ≡ peer_age m live t
  unfolding peer_age detail
  peer_age_alike m live s t a =
      ap
        (λ key.
          and_then (and_then live (λ l. find (λ p. equal p.public_key key) l.peers))
            (handshake_age m.system_time))
        a.public_key

  list_one_alike :
      (m : Moment) (live : Option LiveInterface) (connecting? : Bool) (s t : ServerConfig)
      → IsAlike s t
      → list_one x m live connecting? s ≡ list_one x m live connecting? t
  unfolding list_one
  list_one_alike m live connecting? s t a =
      rw (listed_alike s t a, peer_age_alike m live s t a) refl

  list_alike :
      (m : Moment) (live : Option LiveInterface) (connecting? : Bool) (ss ts : List ServerConfig)
      → AreAlike ss ts
      → map (list_one x m live connecting?) ss ≡ map (list_one x m live connecting?) ts
  list_alike m live c [] [] a = refl
  list_alike m live c [] (t ∷ ts) a = absurd a
  list_alike m live c (s ∷ ss) [] a = absurd a
  list_alike m live c (s ∷ ss) (t ∷ ts) (a, more) =
      λ i. list_one_alike m live c s t a i ∷ list_alike m live c ss ts more i

  get_server_alike :
      (name : Text) (ss ts : List ServerConfig)
      → AreAlike ss ts
      → map_some detail (find (named name) ss) ≡ map_some detail (find (named name) ts)
  unfolding named
  get_server_alike name [] [] a = refl
  get_server_alike name [] (t ∷ ts) a = absurd a
  get_server_alike name (s ∷ ss) [] a = absurd a
  get_server_alike name (s ∷ ss) (t ∷ ts) (a, more) =
      let key = a.name in
      elim (Bool-cases (equal t.name name)) [
        | inl here ↦ rw (ap (λ n. equal n name) key ∙ here, here) (ap some (detail_alike s t a))
        | inr later ↦
            rw (ap (λ n. equal n name) key ∙ later, later) (get_server_alike name ss ts more)
      ]

-- The requests that only read.
abbrev pub Reads : Request → Type 0
Reads Request.status = Unit
Reads (Request.list_servers query) = Unit
Reads (Request.get_server name) = Unit
Reads _ = ⊥

shown_status : Result InterfaceStatus → Response
shown_status (ok live) = Response.status live
shown_status (err _) = Response.disconnected

status_response-shown :
    {S : Type 0} (r : Result InterfaceStatus) (d : Daemon S)
    → (status_response (r, d)).0 ≡ shown_status r
unfolding shown_status
status_response-shown (ok live) d = refl
status_response-shown (err e) d = refl

-- Two daemons that differ only in the secrets of their servers, in the cached endpoints and in the
-- disk, whose private keys have the same public keys, and whose servers have a preshared key in both
-- or in neither, give the same response to every request that only reads.
pub handle_alike :
    (x : External) (codec : Codec) (path : FilePath) {S : Type 0} (wg : Wireguard S) (m : Moment)
    (req : Request) (d e : Daemon S)
    → Reads req
    → AreAlike x d.cfg.servers e.cfg.servers
    → d.backend ≡ e.backend
    → d.last_connect ≡ e.last_connect
    → (handle x codec path wg m req d).0 ≡ (handle x codec path wg m req e).0
unfolding handle list_servers read_status is_connecting get_server find_server
handle_alike x codec path wg m Request.status d e r a b l =
    status_response-shown (read_status wg m d).0 (read_status wg m d).1
    ∙ (λ i. shown_status (
        map_ok (status_of m (is_connecting m (record d { last_connect = l i })))
          (wg.status (b i)).0))
    ∙ sym (status_response-shown (read_status wg m e).0 (read_status wg m e).1)
handle_alike x codec path wg m (Request.list_servers q) d e r a b l =
    (λ i. Response.servers (
      filtered x q (
        map
          (list_one x m (to_option (wg.status (b i)).0)
            (is_connecting m (record d { last_connect = l i })))
          d.cfg.servers)))
    ∙ ap (λ infos. Response.servers (filtered x q infos))
        (list_alike x m (to_option (wg.status e.backend).0) (is_connecting m e) d.cfg.servers
          e.cfg.servers a)
handle_alike x codec path wg m (Request.get_server name) d e r a b l =
    ap (λ found. reply Response.server_detail (ok_or found (unknown name)))
      (get_server_alike x name d.cfg.servers e.cfg.servers a)
handle_alike x codec path wg m (Request.add_server _) d e r a b l = absurd r
handle_alike x codec path wg m (Request.edit_server _) d e r a b l = absurd r
handle_alike x codec path wg m (Request.import_server _ _) d e r a b l = absurd r
handle_alike x codec path wg m (Request.remove_server _) d e r a b l = absurd r
handle_alike x codec path wg m (Request.switch_server _) d e r a b l = absurd r
handle_alike x codec path wg m Request.disconnect d e r a b l = absurd r
